-- ===== src/Sqlite/Lfuda/Sizes.antt =====
-- `update_size` of the LFU-DA cache over SQLite, from a valid state.
use x_cache_manager.Prelude.{
  ℕ, ◌+◌, ◌-◌, ◌≡◌, ◌≤◌, ◌<◌, refl, sym, ap, ◌∙◌, subst, Bool, true, false, none, some, arith, ltb,
  ◌==◌, if◌then◌else◌, is_empty, Bool-cases, inl, inr, pure, ltb→lt,
}
use x_cache_manager.Container.Nodes.{total}
use x_cache_manager.Container.Values.{find_value, replace_value}
use x_cache_manager.Sqlite.Table.{
  All, KeysDistinct, KeysDistinct-replace_value, All-replace_value, All-find_value,
  total-remove_value, total-replace_value, key_of-find_value,
}
use x_cache_manager.Sqlite.Ends.{Ends-bind, Ends-mono}
use x_cache_manager.Sqlite.LfudaStatements.{Cache, cache_entry, sql_update_content_lfuda}
use x_cache_manager.Sqlite.Lfuda
use x_cache_manager.Sqlite.Lfuda.{Lfuda, Error}
use x_cache_manager.Sqlite.Lfuda.Invariant.{IsSound, IsValid, Safe, Allowed, statement-Safe}
use x_cache_manager.Sqlite.Lfuda.Eviction.{Gone, lfuda_remove_cache-Evicted}

-- A valid state with the same limit, and at least the given age.
abbrev pub Reaches : ℕ → Lfuda → {A : Type 0} → A → Lfuda → Type 0
Reaches n s a t = IsValid t × (n ≤ t.meta.global_aging) × (t.meta.max_size ≡ s.meta.max_size)

module _ (fails : ℕ → Bool) where
  resized-IsValid :
      (s t : Lfuda) (r b : Cache)
      → IsSound s
      → find_value b.key s.rows ≡ some r
      → b.eff ≡ r.eff
      → t.rows ≡ replace_value b s.rows
      → t.meta.cache_size + r.size ≡ s.meta.cache_size + b.size
      → t.meta.global_aging ≡ s.meta.global_aging
      → t.meta.max_size ≡ s.meta.max_size
      → t.meta.cache_size ≤ t.meta.max_size
      → IsValid t
  resized-IsValid s t r b v here seq rows size same limit fits =
      let sum = total-replace_value b r s.rows here in
      record {
        sound = record {
          keys = subst KeysDistinct (sym rows) (KeysDistinct-replace_value b s.rows v.keys);
          named = subst (All (λ (c : Cache). is_empty c.key ≡ false)) (sym rows) (
              All-replace_value (λ c. is_empty c.key ≡ false) b s.rows
                (subst (λ k. is_empty k ≡ false) (key_of-find_value b.key r s.rows here)
                  (All-find_value (λ (c : Cache). is_empty c.key ≡ false) b.key r s.rows v.named
                    here))
                v.named);
          aged = subst (All (λ (c : Cache). t.meta.global_aging ≤ c.eff)) (sym rows) (
              subst (λ n. All (λ (c : Cache). n ≤ c.eff) (replace_value b s.rows)) (sym same)
                (All-replace_value (λ c. s.meta.global_aging ≤ c.eff) b s.rows
                  (omega (
                    arith,
                    seq,
                    All-find_value (λ (c : Cache). s.meta.global_aging ≤ c.eff) b.key r s.rows
                        v.aged here,
                  ))
                  v.aged));
          accounted = omega (arith, size, sum, v.accounted, ap total rows);
          small = omega (arith, fits, limit, v.max_small);
          max_small = omega (arith, limit, v.max_small);
        };
        within = fits;
      }

  write_size-Safe :
      (cache r : Cache) (new_size : ℕ) (s : Lfuda)
      → IsSound s
      → find_value cache.key s.rows ≡ some r
      → r.size ≡ cache.size
      → s.meta.cache_size + new_size ≤ s.meta.max_size + cache.size
      → Safe fails (Reaches s.meta.global_aging s) (Lfuda.write_size fails cache new_size s)
  unfolding Lfuda.write_size Lfuda.grow Lfuda.shrink Lfuda.update_lfuda_content
      sql_update_content_lfuda
  write_size-Safe cache r new_size s v here same fits =
      let sum = total-remove_value cache.key r s.rows here in
      let key = key_of-find_value cache.key r s.rows here in
      elim (Bool-cases (ltb s.meta.cache_size cache.size)) [
        | inl under ↦ absurd (omega (arith, ltb→lt _ _ under, v.accounted, sum, same))
        | inr enough ↦
            rw (enough, Lfuda.write_size)
              (statement-Safe fails (Reaches s.meta.global_aging s)
                (sql_update_content_lfuda new_size cache.key) _ _ 1
                (replace_value (record r { size = new_size }) s.rows)
                (rw (here, sql_update_content_lfuda) refl)
                (
                  resized-IsValid s _ r (record r { size = new_size }) v
                      (subst (λ k. find_value k s.rows ≡ some r) (sym key) here) refl refl
                      (ground (arith, v.accounted, sum, same, v.small, v.max_small, fits)) refl refl
                      (ground (arith, v.accounted, sum, same, v.small, v.max_small, fits)),
                  omega arith,
                  refl,
                ))
      ]

  -- A larger size may cost the entry its place; the size stays below the limit either way.
  pub update_size-Safe :
      (cache r : Cache) (new_size : ℕ) (s : Lfuda)
      → IsValid s
      → find_value cache.key s.rows ≡ some r
      → r.size ≡ cache.size
      → new_size ≤ s.meta.max_size
      → Safe fails (Reaches s.meta.global_aging s) (Lfuda.update_size fails cache new_size s)
  unfolding Lfuda.update_size
  update_size-Safe cache r new_size s v here same small =
      elim (Bool-cases (new_size == cache.size)) [
        | inl eq ↦ rw (eq, Lfuda.update_size) (v, omega arith, refl)
        | inr ne ↦ elim (Bool-cases (ltb cache.size new_size)) [
          | inl grows ↦
              rw (ne, grows, Lfuda.update_size)
                (Ends-bind (Allowed fails) (Gone (new_size - cache.size) cache.key s)
                  (Reaches s.meta.global_aging s) _ _ s
                  (lfuda_remove_cache-Evicted fails (new_size - cache.size) cache.key s
                    (omega arith) v.sound)
                  (λ flag t g. go (ltb→lt _ _ grows) flag t g))
          | inr shrinks ↦
              rw (ne, shrinks, Lfuda.update_size)
                (write_size-Safe cache r new_size s v.sound here same
                  (omega (arith, v.within, le shrinks)))
        ]
      ]
    where
      le : ltb cache.size new_size ≡ false → new_size ≤ cache.size
      le h = ground arith

      go :
          cache.size < new_size
          → (flag : Bool) (t : Lfuda) → Gone (new_size - cache.size) cache.key s flag t
          → Safe fails
              (Reaches s.meta.global_aging s)
              ((if flag then pure tt else Lfuda.write_size fails cache new_size) t)
      go lt true t g =
          (record { sound = g.sound; within = omega (arith, g.room) }, g.rises, g.max_size)
      go lt false t g =
          Ends-mono (Allowed fails) (Reaches t.meta.global_aging t) (Reaches s.meta.global_aging s)
            _ (λ a u h. (h.0, omega (arith, h.1, g.rises), h.2 ∙ g.max_size))
            (write_size-Safe cache r new_size t g.sound
              (g.kept cache.key
                ∙ ap (λ (b : Bool). if b then none else find_value cache.key s.rows) (sym g.marked)
                ∙ here)
              same (omega (arith, g.room, lt)))
