-- ===== src/Platform/UnorderedMap.antt =====
-- `std::unordered_map<std::string, V>` where the code never iterates over it: the entry of each
-- key, and the number of entries.
use transfer_queue.Prelude.{
  ℕ, suc, ◌-◌, Option, none, some, is_some, ite, if◌then◌else◌, Str, Str-discrete,
}

pub record UnorderedMap {ℓ} (V : Type ℓ) : Type ℓ where
  pub find : Str → Option V
  pub size : ℕ

module _ {ℓ} {V : Type ℓ} where
  abbrev pub empty : UnorderedMap V
  empty = record { find = λ _. none; size = 0 }

  -- `m[k] = v`
  unfoldable pub assign : Str → V → UnorderedMap V → UnorderedMap V
  assign k v m = record {
    find = λ q. ite (Str-discrete q k) (some v) (m.find q);
    size = if is_some (m.find k) then m.size else suc m.size;
  }

  -- `m.erase(k)`
  unfoldable pub erase : Str → UnorderedMap V → UnorderedMap V
  erase k m = record {
    find = λ q. ite (Str-discrete q k) none (m.find q);
    size = if is_some (m.find k) then m.size - 1 else m.size;
  }
