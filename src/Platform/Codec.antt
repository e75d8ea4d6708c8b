-- ===== src/Platform/Codec.antt =====
-- A serialisation of groups to run the model on. It writes groups whose trajectories have no
-- messages and no extra information, and refuses the others.
use transfer_queue.Prelude.{
  ℕ, zero, suc, ◌^◌, ◌<◌, ◌≡◌, refl, ap₂, Bool, true, false, List, [], ◌∷◌, ◌++◌, Option, none,
  some, Str, length, take, drop, take-append, ltb, ◌==◌, if◌then◌else◌, arith,
}
use transfer_queue.Prelude.Int.{ℤ, pos, negsuc}
use transfer_queue.Proto.{Trajectory, TrajectoryGroup}

drop-append : (a b : Str) → drop (length a) (a ++ b) ≡ b
drop-append [] b = refl
drop-append (x ∷ a) b = drop-append a b

abbrev encode_str : Str → Str → Str
encode_str s rest = length s ∷ (s ++ rest)

abbrev decode_str : Str → Str × Str
decode_str [] = ([], [])
decode_str (n ∷ r) = (take n r, drop n r)

decode_str-encode_str : (s rest : Str) → decode_str (encode_str s rest) ≡ (s, rest)
decode_str-encode_str s rest = rw (take-append s rest, drop-append s rest)

abbrev is_empty {ℓ} : {A : Type ℓ} → List A → Bool
is_empty [] = true
is_empty (x ∷ xs) = false

abbrev plain : List (Trajectory ℕ) → Bool
plain [] = true
plain (t ∷ ts) =
    if is_empty t.messages then (if is_empty t.extra_info then plain ts else false) else false

abbrev encode_all : List (Trajectory ℕ) → Str
encode_all [] = 0 ∷ []
encode_all (t ∷ ts) = 1 ∷ encode_str t.uid (encode_str t.instance_id (t.reward ∷ encode_all ts))

abbrev head_of : Str → ℕ
head_of [] = 0
head_of (n ∷ r) = n

-- One trajectory, and what follows it.
abbrev decode_one : Str → Trajectory ℕ × Str
decode_one s =
    let (uid, r₁) = decode_str s in
    let (instance_id, r₂) = decode_str r₁ in
    (
      record {
        uid = uid;
        instance_id = instance_id;
        messages = [];
        reward = head_of r₂;
        extra_info = [];
      },
      drop 1 r₂,
    )

unfoldable pub decode_all : ℕ → Str → List (Trajectory ℕ)
decode_all zero s = []
decode_all (suc fuel) [] = []
decode_all (suc fuel) (zero ∷ r) = []
decode_all (suc fuel) (suc n ∷ r) = let (t, rest) = decode_one r in t ∷ decode_all fuel rest

decode_all-encode_all :
    (ts : List (Trajectory ℕ)) → plain ts ≡ true → decode_all (suc (length ts)) (encode_all ts) ≡ ts
unfolding decode_all
decode_all-encode_all [] h = refl
decode_all-encode_all (t ∷ ts) h =
    simp (take-append, drop-append)
      (ap₂ ◌∷◌ (ground arith) (decode_all-encode_all ts (ground arith)))

abbrev encode_size : ℤ → Str → Str
encode_size (pos n) r = 0 ∷ n ∷ r
encode_size (negsuc n) r = 1 ∷ n ∷ r

abbrev encode_flag : Bool → ℕ
encode_flag true = 1
encode_flag false = 0

abbrev encode : TrajectoryGroup ℕ → Str
encode g =
    length g.trajectories
    ∷ encode_flag g.is_complete
    ∷ encode_size g.group_size (encode_str g.instance_id (encode_all g.trajectories))

unfoldable pub serialize : TrajectoryGroup ℕ → Option Str
serialize g =
    if plain g.trajectories
    then (if ltb (length (encode g)) (2 ^ 31) then some (encode g) else none)
    else none

abbrev decode_size : ℕ → ℕ → ℤ
decode_size zero n = pos n
decode_size (suc k) n = negsuc n

unfoldable pub parse : Str → Option (TrajectoryGroup ℕ)
parse (count ∷ flag ∷ sign ∷ n ∷ r) =
    let (instance_id, rest) = decode_str r in
    some (record {
      instance_id = instance_id;
      trajectories = decode_all (suc count) rest;
      group_size = decode_size sign n;
      is_complete = flag == 1;
    })
parse _ = none

parse_fields :
    (ts : List (Trajectory ℕ)) (id : Str) (done : Bool) (size : ℤ)
    → plain ts ≡ true
    → parse (length ts ∷ encode_flag done ∷ encode_size size (encode_str id (encode_all ts)))
      ≡ some (record { instance_id = id; trajectories = ts; group_size = size; is_complete = done })
unfolding parse
parse_fields ts id true (pos n) h = simp (take-append, drop-append, decode_all-encode_all ts h)
parse_fields ts id true (negsuc n) h = simp (take-append, drop-append, decode_all-encode_all ts h)
parse_fields ts id false (pos n) h = simp (take-append, drop-append, decode_all-encode_all ts h)
parse_fields ts id false (negsuc n) h = simp (take-append, drop-append, decode_all-encode_all ts h)

pub parse-serialize : (g : TrajectoryGroup ℕ) (s : Str) → serialize g ≡ some s → parse s ≡ some g
unfolding serialize
parse-serialize g s e =
    let written : s ≡ encode g = ground arith in
    rw written (parse_fields g.trajectories g.instance_id g.is_complete g.group_size (ground arith))

pub serialize-limit : (g : TrajectoryGroup ℕ) (s : Str) → serialize g ≡ some s → length s < 2 ^ 31
unfolding serialize
serialize-limit g s e = ground arith
