-- ===== src/Prelude/Lists.antt =====
-- Lists measured and indexed by native numbers, under the library's names.
use Prim.Native.Nat.{ℕ, zero, suc, ◌+◌, ◌≤◌, ◌<◌, min}
use mathlib.Core.Path.{◌≡◌, refl, ap}
use mathlib.Core.List.{List, [], ◌∷◌, ◌++◌, map}
use native.Mathlib.Omega.{arith}

module _ {ℓ} {A : Type ℓ} where
  abbrev pub length : List A → ℕ
  length [] = 0
  length (a ∷ l) = suc (length l)

  -- A write out of bounds changes nothing.
  abbrev pub set : List A → ℕ → A → List A
  set [] i v = []
  set (a ∷ l) zero v = v ∷ l
  set (a ∷ l) (suc i) v = a ∷ set l i v

  abbrev pub get_or : List A → ℕ → A → A
  get_or [] i d = d
  get_or (a ∷ l) zero d = a
  get_or (a ∷ l) (suc i) d = get_or l i d

  abbrev pub take : ℕ → List A → List A
  take zero l = []
  take (suc n) [] = []
  take (suc n) (a ∷ l) = a ∷ take n l

  abbrev pub drop : ℕ → List A → List A
  drop zero l = l
  drop (suc n) [] = []
  drop (suc n) (a ∷ l) = drop n l

  abbrev pub replicate : ℕ → A → List A
  replicate zero a = []
  replicate (suc n) a = a ∷ replicate n a

  pub length-append : (l ys : List A) → length (l ++ ys) ≡ length l + length ys
  length-append [] ys = omega arith
  length-append (a ∷ l) ys = omega (arith, length-append l ys)

  pub length-set : (l : List A) (i : ℕ) (v : A) → length (set l i v) ≡ length l
  length-set [] i v = refl
  length-set (a ∷ l) zero v = refl
  length-set (a ∷ l) (suc i) v = ap suc (length-set l i v)

  pub get_or-set_self : (l : List A) (i : ℕ) (v d : A) → i < length l → get_or (set l i v) i d ≡ v
  get_or-set_self [] i v d h = elim h [ ]
  get_or-set_self (a ∷ l) zero v d h = refl
  get_or-set_self (a ∷ l) (suc i) v d h = get_or-set_self l i v d (omega arith)

  pub length-take : (n : ℕ) (l : List A) → length (take n l) ≡ min n (length l)
  length-take zero l = omega arith
  length-take (suc n) [] = omega arith
  length-take (suc n) (a ∷ l) = omega (arith, length-take n l)

  take-empty : (n : ℕ) → take n [] ≡ []
  take-empty zero = refl
  take-empty (suc n) = refl

  pub take_of_length-le : (n : ℕ) (l : List A) → length l ≤ n → take n l ≡ l
  take_of_length-le n [] h = take-empty n
  take_of_length-le zero (a ∷ l) h = absurd (ground (arith, h))
  take_of_length-le (suc k) (a ∷ l) h = ap (λ m. a ∷ m) (take_of_length-le k l (omega (arith, h)))

  pub length-replicate : (n : ℕ) (a : A) → length (replicate n a) ≡ n
  length-replicate zero a = refl
  length-replicate (suc n) a = ap suc (length-replicate n a)

  pub take-append : (l ys : List A) → take (length l) (l ++ ys) ≡ l
  take-append [] ys = refl
  take-append (a ∷ l) ys = ap (◌∷◌ a) (take-append l ys)

-- A predicate on every element, by recursion.
abbrev pub All {ℓ κ} : {A : Type ℓ} → (A → Type κ) → List A → Type κ
All P [] = Unit
All P (a ∷ l) = P a × All P l

module _ {ℓ} {A : Type ℓ} where
  pub take-take : (m n : ℕ) (l : List A) → m ≤ n → take m (take n l) ≡ take m l
  take-take zero n l h = refl
  take-take (suc m) zero l h = absurd (omega arith)
  take-take (suc m) (suc n) [] h = refl
  take-take (suc m) (suc n) (a ∷ l) h = ap (◌∷◌ a) (take-take m n l (omega arith))

  pub length-map {κ} : {B : Type κ} (f : A → B) (l : List A) → length (map f l) ≡ length l
  length-map f [] = refl
  length-map f (a ∷ l) = ap suc (length-map f l)
