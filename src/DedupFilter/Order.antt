-- ===== src/DedupFilter/Order.antt =====
-- The nodes of `lru_list_`: what a splice and the removal of the last node do to the uids.
use transfer_queue.Prelude.{
  ℕ, suc, ◌≡◌, ◌≢◌, refl, ap, Bool, true, false, List, [], ◌∷◌, Option, none, some, ite, if_neg,
  is_some, Option-cases, inl, inr, subst, Str, Str-discrete, ℕ_discrete, length, take, All, arith,
}
use transfer_queue.DedupFilter.{Node, find_node, remove_node, splice_front, split_last, uids_of}

-- The iterator of the first node that holds a uid.
unfoldable pub iterator_of : Str → List Node → Option ℕ
iterator_of u [] = none
iterator_of u (n ∷ l) = ite (Str-discrete u n.uid) (some n.iterator) (iterator_of u l)

-- No uid and no iterator twice.
abbrev pub Distinct : List Node → Type 0
Distinct [] = Unit {0}
Distinct (n ∷ l) = (iterator_of n.uid l ≡ none) × (find_node n.iterator l ≡ none) × Distinct l

-- The abstract set, most recent first.
unfoldable pub member : Str → List Str → Bool
member u [] = false
member u (v ∷ l) = ite (Str-discrete u v) true (member u l)

unfoldable pub remove : Str → List Str → List Str
remove u [] = []
remove u (v ∷ l) = ite (Str-discrete u v) l (v ∷ remove u l)

pub member-uids_of : (u : Str) (l : List Node) → member u (uids_of l) ≡ is_some (iterator_of u l)
unfolding member iterator_of
member-uids_of u [] = refl
member-uids_of u (n ∷ l) = ground (arith, member-uids_of u l)

-- What `remove_node` keeps.
pub find_node-remove_node :
    (it j : ℕ) (l : List Node) → find_node j l ≡ none → find_node j (remove_node it l) ≡ none
unfolding find_node remove_node
find_node-remove_node it j [] h = refl
find_node-remove_node it j (n ∷ l) h = ground (arith, find_node-remove_node it j l)

pub iterator_of-remove_node :
    (it : ℕ) (q : Str) (l : List Node)
    → iterator_of q l ≡ none
    → iterator_of q (remove_node it l) ≡ none
unfolding iterator_of remove_node
iterator_of-remove_node it q [] h = refl
iterator_of-remove_node it q (n ∷ l) h = ground (arith, iterator_of-remove_node it q l)

pub Distinct-remove_node : (it : ℕ) (l : List Node) → Distinct l → Distinct (remove_node it l)
unfolding remove_node
Distinct-remove_node it [] h = tt
Distinct-remove_node it (n ∷ l) h = ground (
  arith,
  Distinct-remove_node it l h.2,
  find_node-remove_node it n.iterator l,
  iterator_of-remove_node it n.uid l,
)

-- A listed uid: its iterator leads to its node.
pub record Located (u : Str) (it : ℕ) (l : List Node) (n : Node) : Type 0 where
  pub found : find_node it l ≡ some n
  pub uid : n.uid ≡ u
  pub iterator : n.iterator ≡ it
  pub uids : uids_of (remove_node it l) ≡ remove u (uids_of l)
  pub size : suc (length (remove_node it l)) ≡ length l
  pub gone : find_node it (remove_node it l) ≡ none
  pub absent : iterator_of u (remove_node it l) ≡ none

pub locate :
    (u : Str) (it : ℕ) (l : List Node)
    → Distinct l
    → iterator_of u l ≡ some it
    → (n : Node) × Located u it l n
unfolding find_node remove_node iterator_of remove
locate u it [] h e = absurd (ground arith)
locate u it (n ∷ l) h e = elim (Str-discrete u n.uid) [
  | yes p ↦ (n, ground arith)
  | no p ↦ let (m, at) = locate u it l h.2 (ground arith) in (m, ground (arith, at))
]

pub iterator_of-remove_node_ne :
    (it : ℕ) (q : Str) (l : List Node) (n : Node)
    → find_node it l ≡ some n
    → q ≢ n.uid
    → iterator_of q (remove_node it l) ≡ iterator_of q l
unfolding iterator_of remove_node find_node
iterator_of-remove_node_ne it q [] n e h = refl
iterator_of-remove_node_ne it q (m ∷ l) n e h = ground (arith, iterator_of-remove_node_ne it q l n)

All-remove_node {ℓ} :
    (P : Node → Type ℓ) (it : ℕ) (l : List Node) → All P l → All P (remove_node it l)
unfolding remove_node
All-remove_node P it [] a = a
All-remove_node P it (n ∷ l) a = ground (arith, All-remove_node P it l a.1)

All-find_node {ℓ} :
    (P : Node → Type ℓ) (it : ℕ) (l : List Node) (n : Node)
    → All P l
    → find_node it l ≡ some n
    → P n
unfolding find_node
All-find_node P it [] n a e = absurd (ground arith)
All-find_node P it (m ∷ l) n a e = elim (ℕ_discrete m.iterator it) [
  | yes p ↦ subst P (ground arith) a.0
  | no p ↦ All-find_node P it l n a.1 (ground arith)
]

-- A splice moves a listed uid to the front and changes nothing else.
pub record Spliced (u : Str) (l l' : List Node) : Type 1 where
  pub uids : uids_of l' ≡ u ∷ remove u (uids_of l)
  pub distinct : Distinct l'
  pub same : (q : Str) → iterator_of q l' ≡ iterator_of q l
  pub size : length l' ≡ length l
  pub all : (P : Node → Type 0) → All P l → All P l'

pub splice_front-Spliced :
    (u : Str) (it : ℕ) (l : List Node)
    → Distinct l
    → iterator_of u l ≡ some it
    → Spliced u l (splice_front it l)
unfolding splice_front iterator_of
splice_front-Spliced u it l h e =
    let (n, at) = locate u it l h e in
    rw (at.found, splice_front)
      (record {
        uids = ground (arith, at.uids, at.uid);
        distinct = (rw at.uid at.absent, rw at.iterator at.gone, Distinct-remove_node it l h);
        same = λ q. elim (Str-discrete q n.uid) [
          | yes p ↦ rw (p, at.uid) (ground (arith, at.iterator, at.uid, e))
          | no p ↦ rw (if_neg _ p) (iterator_of-remove_node_ne it q l n at.found p)
        ];
        size = at.size;
        all = λ P a. (All-find_node P it l n a at.found, All-remove_node P it l a);
      })

-- What is left without the last node.
pub record Shortened (l rest : List Node) (oldest : Node) : Type 1 where
  pub split : split_last l ≡ some (rest, oldest)
  pub size : suc (length rest) ≡ length l
  pub uids : uids_of rest ≡ take (length rest) (uids_of l)
  pub distinct : Distinct rest
  pub listed : is_some (iterator_of oldest.uid l) ≡ true
  pub gone : (q : Str) → iterator_of q rest ≡ ite (Str-discrete q oldest.uid) none (iterator_of q l)
  pub all : (P : Node → Type 0) → All P l → All P rest

find_node-split_last :
    (j : ℕ) (l rest : List Node) (oldest : Node)
    → split_last l ≡ some (rest, oldest)
    → find_node j l ≡ none
    → find_node j rest ≡ none
unfolding find_node split_last
find_node-split_last j [] rest oldest e h = absurd (ground arith)
find_node-split_last j (n ∷ l) rest oldest e h = elim (Option-cases (split_last l)) [
  | inl last ↦ ground arith
  | inr ((r, o), more) ↦ ground (arith, find_node-split_last j l r o more)
]

pub split_last-Shortened :
    (n : Node) (l : List Node)
    → Distinct (n ∷ l)
    → (rest : List Node) × (oldest : Node) × Shortened (n ∷ l) rest oldest
unfolding split_last iterator_of
split_last-Shortened n [] h = (
  [],
  n,
  record {
    split = refl;
    size = refl;
    uids = refl;
    distinct = tt;
    listed = ground arith;
    gone = λ q. ground arith;
    all = λ P a. tt;
  },
)
split_last-Shortened n (m ∷ l) h =
    let (rest, oldest, s) = split_last-Shortened m l h.2 in
    (
      n ∷ rest,
      oldest,
      record {
        split = rw s.split;
        size = ap suc s.size;
        uids = ap (◌∷◌ n.uid) s.uids;
        distinct = (
          ground (arith, s.gone n.uid),
          find_node-split_last n.iterator (m ∷ l) rest oldest s.split h.1,
          s.distinct,
        );
        listed = ground (arith, s.listed);
        gone = λ q. ground (arith, s.gone q, s.listed);
        all = λ P a. (a.0, s.all P a.1);
      },
    )
