-- ===== src/Prelude/Options.antt =====
-- Optional values.
use mathlib.Core.Path.{◌≡◌}
use mathlib.Core.Option.{some}

pub some_injective : {A : Type 0} {a b : A} → some a ≡ some b → a ≡ b
some_injective e = cc
