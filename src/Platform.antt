-- ===== src/Platform.antt =====
-- What the program takes from the C++ library and the compiler: `double`, and its words.
pub mod Fixed
pub mod Codec
pub mod Sample
pub mod Runtime
pub mod UnorderedMap
pub mod Message
pub mod Formats
use transfer_queue.Prelude.{ℕ, Bool, ◌^◌}

-- The operations on `double` that the code uses. `decimal m s` is the literal m / 10^s.
pub record Double {ℓ} (F : Type ℓ) : Type ℓ where
  pub decimal : ℕ → ℕ → F
  pub of_uint : ℕ → F
  pub to_uint : F → ℕ
  pub neg : F → F
  pub add : F → F → F
  pub sub : F → F → F
  pub mul : F → F → F
  pub div : F → F → F
  pub log : F → F
  pub exp : F → F
  pub pow : F → F → F
  pub le : F → F → Bool
  pub lt : F → F → Bool

-- The number of values of a `size_t`.
abbrev pub size_mod : ℕ
size_mod = 2 ^ 64
