-- ===== src/Prelude/Strings.antt =====
-- `std::string` and `seastar::sstring`: sequences of bytes.
use Prim.Native.Nat.{ℕ}
use mathlib.Core.List.{List, [], ◌∷◌}
use mathlib.Core.Path.{◌≡◌, refl, ap₂}
use native.Mathlib.Decide.{ℕ_discrete}

abbrev pub Str : Type 0
Str = List ℕ

pub cons-injective : {x y : ℕ} {xs ys : Str} → x ∷ xs ≡ y ∷ ys → (x ≡ y) × (xs ≡ ys)
cons-injective e = (cc, cc)

pub nil-ne-cons : (y : ℕ) (ys : Str) → ¬ ([] ≡ y ∷ ys)
nil-ne-cons y ys e = cc

pub cons-ne-nil : (x : ℕ) (xs : Str) → ¬ (x ∷ xs ≡ [])
cons-ne-nil x xs e = cc

cons_dec : (x y : ℕ) (xs ys : Str) → Dec (x ≡ y) → Dec (xs ≡ ys) → Dec (x ∷ xs ≡ y ∷ ys)
cons_dec x y xs ys (yes p) (yes q) = yes (ap₂ ◌∷◌ p q)
cons_dec x y xs ys (yes p) (no q) = no (λ e. q (cons-injective e).1)
cons_dec x y xs ys (no p) _ = no (λ e. p (cons-injective e).0)

-- `==` of strings.
unfoldable pub Str-discrete : Discrete Str
unfolding cons_dec ℕ_discrete
Str-discrete [] [] = yes refl
Str-discrete [] (y ∷ ys) = no (nil-ne-cons y ys)
Str-discrete (x ∷ xs) [] = no (cons-ne-nil x xs)
Str-discrete (x ∷ xs) (y ∷ ys) = cons_dec x y xs ys (ℕ_discrete x y) (Str-discrete xs ys)
