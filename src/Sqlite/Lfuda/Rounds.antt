-- ===== src/Sqlite/Lfuda/Rounds.antt =====
-- One round of the loop of `remove_cache` of src/algo/algo_lfuda_sqlite.cpp: the row that it deletes, and
-- what the rows that are gone and those that stay have to do with each other.
use x_cache_manager.Prelude.{
  ℕ, suc, ◌+◌, ◌≡◌, ◌≤◌, refl, ◌∙◌, Bool, false, ◌||◌, none, some, List, [], ◌∷◌, arith, Str,
  str_eq, if◌then◌else◌, is_empty,
}
use x_cache_manager.Container.Nodes.{total}
use x_cache_manager.Container.Values.{find_value, remove_value}
use x_cache_manager.Sqlite.Table.{
  All, first, first_minimal, IsWeakOrder, find_value-first, find_value-remove_value,
  KeysDistinct-remove_value, All-remove_value, All-find_value, total-remove_value,
}
use x_cache_manager.Sqlite.LfudaStatements.{Cache, cache_entry, worse}
use x_cache_manager.Sqlite.Lfuda.{Lfuda, age, shrink}
use x_cache_manager.Sqlite.Lfuda.Invariant.{IsSound}

worse-IsWeakOrder : IsWeakOrder worse
unfolding worse
worse-IsWeakOrder = record {
  step = λ a b c h k. ground arith;
  asym = λ a b h. ground arith;
  irrefl = λ a. ground arith;
}

worse-eff-le : (a b : Cache) → worse b a ≡ false → a.eff ≤ b.eff
unfolding worse
worse-eff-le a b h = ground arith

-- A row of this key is among them.
unfoldable pub among : Str → List Cache → Bool
among k [] = false
among k (r ∷ l) = str_eq r.key k || among k l

-- No row is worse than this one.
abbrev pub AllFrom : Cache → List Cache → Type 0
AllFrom c l = All (λ r. worse r c ≡ false) l

abbrev pub AllBelow : ℕ → List Cache → Type 0
AllBelow n l = All (λ r. r.eff ≤ n) l

AllFrom-eff : (c : Cache) (l : List Cache) → AllFrom c l → All (λ r. c.eff ≤ r.eff) l
AllFrom-eff c [] h = tt
AllFrom-eff c (r ∷ l) h = (worse-eff-le c r h.0, AllFrom-eff c l h.1)

-- `t` is `s` without the rows `gone`, none of which is better than a row that stays.
pub record Evicted (s t : Lfuda) (gone : List Cache) : Type 0 where
  pub sound : IsSound t
  pub max_size : t.meta.max_size ≡ s.meta.max_size
  pub rises : s.meta.global_aging ≤ t.meta.global_aging
  pub callbacks : t.callbacks ≡ s.callbacks
  pub kept : (q : Str) → find_value q t.rows ≡ (if among q gone then none else find_value q s.rows)
  pub stays : (c : Cache) → AllFrom c s.rows → AllFrom c t.rows
  pub bounded :
      (n : ℕ)
      → s.meta.global_aging ≤ n
      → AllBelow n s.rows
      → (t.meta.global_aging ≤ n) × AllBelow n t.rows
  pub worst : All (λ r. AllFrom r t.rows) gone

-- The state after a round of the loop.
abbrev pub dropped : Cache → Lfuda → Lfuda
dropped m s = age m (shrink m (record s { clock = suc s.clock; rows = remove_value m.key s.rows }))

pub first-size :
    (s : Lfuda) (m : Cache)
    → IsSound s
    → first worse s.rows ≡ some m
    → (find_value m.key s.rows ≡ some m)
      × (s.meta.cache_size ≡ m.size + total (remove_value m.key s.rows))
first-size s m v e =
    let here = find_value-first worse s.rows m v.keys e in
    (here, v.accounted ∙ total-remove_value m.key m s.rows here)

pub dropped-IsSound :
    (s : Lfuda) (m : Cache) → IsSound s → first worse s.rows ≡ some m → IsSound (dropped m s)
unfolding shrink age
dropped-IsSound s m v e =
    let (here, sum) = first-size s m v e in
    record {
      keys = KeysDistinct-remove_value m.key s.rows v.keys;
      named = All-remove_value (λ r. is_empty r.key ≡ false) m.key s.rows v.named;
      aged = AllFrom-eff m (remove_value m.key s.rows) (
          All-remove_value (λ r. worse r m ≡ false) m.key s.rows
            (first_minimal worse worse-IsWeakOrder s.rows m e));
      accounted = ground (arith, sum, v.small);
      small = ground (arith, sum, v.small);
      max_small = v.max_small;
    }

pub Evicted-none : (s : Lfuda) → IsSound s → Evicted s s []
unfolding among
Evicted-none s v = record {
  sound = v;
  max_size = refl;
  rises = omega arith;
  callbacks = refl;
  kept = λ q. refl;
  stays = λ c h. h;
  bounded = λ n h k. (h, k);
  worst = tt;
}

pub Evicted-next :
    (s t : Lfuda) (m : Cache) (gone : List Cache)
    → IsSound s
    → first worse s.rows ≡ some m
    → Evicted (dropped m s) t gone
    → Evicted s t (m ∷ gone)
unfolding shrink age among
Evicted-next s t m gone v e h =
    let least = first_minimal worse worse-IsWeakOrder s.rows m e in
    let here = (first-size s m v e).0 in
    record {
      sound = h.sound;
      max_size = h.max_size;
      rises = omega (
        arith,
        All-find_value (λ (r : Cache). s.meta.global_aging ≤ r.eff) m.key m s.rows v.aged here,
        h.rises,
      );
      callbacks = h.callbacks;
      kept = λ q. ground (arith, h.kept q, find_value-remove_value m.key q s.rows v.keys);
      stays = λ c k. h.stays c (All-remove_value (λ r. worse r c ≡ false) m.key s.rows k);
      bounded = λ n le k.
          h.bounded n (All-find_value (λ (r : Cache). r.eff ≤ n) m.key m s.rows k here)
            (All-remove_value (λ r. r.eff ≤ n) m.key s.rows k);
      worst = (h.stays m (All-remove_value (λ r. worse r m ≡ false) m.key s.rows least), h.worst);
    }
