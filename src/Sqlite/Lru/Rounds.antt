-- ===== src/Sqlite/Lru/Rounds.antt =====
-- One round of the loop of `remove_cache` of src/algo/algo_lru_sqlite.cpp: the row that it deletes, and
-- what the rows that are gone and those that stay have to do with each other.
use x_cache_manager.Prelude.{
  ℕ, suc, ◌+◌, ◌≡◌, ◌≤◌, refl, ◌∙◌, Bool, false, ◌||◌, none, some, List, [], ◌∷◌, arith, Str,
  str_eq, ltb, if◌then◌else◌, is_empty,
}
use x_cache_manager.Container.Nodes.{total}
use x_cache_manager.Container.Values.{find_value, remove_value}
use x_cache_manager.Sqlite.Table.{
  All, first, first_minimal, IsWeakOrder, find_value-first, find_value-remove_value,
  KeysDistinct-remove_value, All-remove_value, total-remove_value,
}
use x_cache_manager.Sqlite.LruStatements.{Cache, cache_entry, older}
use x_cache_manager.Sqlite.Lru.{Lru, shrink}
use x_cache_manager.Sqlite.Lru.Invariant.{IsSound}

older-IsWeakOrder : IsWeakOrder older
older-IsWeakOrder = record {
  step = λ a b c h k. ground arith;
  asym = λ a b h. ground arith;
  irrefl = λ a. ground arith;
}

-- A row of this key is among them.
unfoldable pub among : Str → List Cache → Bool
among k [] = false
among k (r ∷ l) = str_eq r.key k || among k l

-- No row is older than the bound.
abbrev pub AllFrom : ℕ → List Cache → Type 0
AllFrom n l = All (λ r. ltb r.sequence n ≡ false) l

-- `t` is `s` without the rows `gone`, none of which is newer than a row that stays.
pub record Evicted (s t : Lru) (gone : List Cache) : Type 0 where
  pub sound : IsSound t
  pub max_size : t.meta.max_size ≡ s.meta.max_size
  pub sequence : t.meta.sequence ≡ s.meta.sequence
  pub callbacks : t.callbacks ≡ s.callbacks
  pub kept : (q : Str) → find_value q t.rows ≡ (if among q gone then none else find_value q s.rows)
  pub stays : (n : ℕ) → AllFrom n s.rows → AllFrom n t.rows
  pub oldest : All (λ r. AllFrom r.sequence t.rows) gone

-- The state after a round of the loop.
abbrev pub dropped : Cache → Lru → Lru
dropped m s = shrink m (record s { clock = suc s.clock; rows = remove_value m.key s.rows })

pub first-size :
    (s : Lru) (m : Cache)
    → IsSound s
    → first older s.rows ≡ some m
    → (find_value m.key s.rows ≡ some m)
      × (s.meta.cache_size ≡ m.size + total (remove_value m.key s.rows))
first-size s m v e =
    let here = find_value-first older s.rows m v.keys e in
    (here, v.accounted ∙ total-remove_value m.key m s.rows here)

pub dropped-IsSound :
    (s : Lru) (m : Cache) → IsSound s → first older s.rows ≡ some m → IsSound (dropped m s)
unfolding shrink
dropped-IsSound s m v e =
    let (here, sum) = first-size s m v e in
    record {
      keys = KeysDistinct-remove_value m.key s.rows v.keys;
      named = All-remove_value (λ r. is_empty r.key ≡ false) m.key s.rows v.named;
      counted = All-remove_value (λ r. r.sequence ≤ s.meta.sequence) m.key s.rows v.counted;
      accounted = ground (arith, sum, v.small);
      small = ground (arith, sum, v.small);
      max_small = v.max_small;
    }

pub Evicted-none : (s : Lru) → IsSound s → Evicted s s []
unfolding among
Evicted-none s v = record {
  sound = v;
  max_size = refl;
  sequence = refl;
  callbacks = refl;
  kept = λ q. refl;
  stays = λ n h. h;
  oldest = tt;
}

pub Evicted-next :
    (s t : Lru) (m : Cache) (gone : List Cache)
    → IsSound s
    → first older s.rows ≡ some m
    → Evicted (dropped m s) t gone
    → Evicted s t (m ∷ gone)
unfolding shrink among
Evicted-next s t m gone v e h =
    let least = first_minimal older older-IsWeakOrder s.rows m e in
    record {
      sound = h.sound;
      max_size = h.max_size;
      sequence = h.sequence;
      callbacks = h.callbacks;
      kept = λ q. ground (arith, h.kept q, find_value-remove_value m.key q s.rows v.keys);
      stays = λ n k. h.stays n (All-remove_value (λ r. ltb r.sequence n ≡ false) m.key s.rows k);
      oldest = (
        h.stays m.sequence
            (All-remove_value (λ r. ltb r.sequence m.sequence ≡ false) m.key s.rows least),
        h.oldest,
      );
    }
