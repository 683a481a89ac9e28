-- ===== src/Sqlite/Opening/Openings.antt =====
-- How opening a database ends: the constructors of src/db_adapter/db_sqlite_lru.h and
-- db_sqlite_lfuda.h.
use x_cache_manager.Prelude.{
  ℕ, ◌≡◌, refl, sym, ◌∙◌, subst, ap, Bool, true, false, not, [], ◌∷◌, Option, none, some, inl, inr,
  arith, Str, if◌then◌else◌, is_some, Outcome, returns, throws, ◌>>◌, pure, Bool-cases,
  Option-cases, bind-returns, bind-throws,
}
use x_cache_manager.Sqlite.Opening.{
  Name, cache_lru, meta_lru, index_lru, cache_lfuda, meta_lfuda, index_lfuda, Schema, lists, Error,
  open_failed, simple_failed, Disk, M, ticked, written, schema_or_empty, sql_create,
  sql_create_index, path_of, construct, open_db, execute, check, tables, prepare, sqlite_lru,
  sqlite_lfuda,
}
use x_cache_manager.Sqlite.Opening.Statements.{
  Reported, execute-writes, execute-refuses, execute-fails, written-file, open_db-returns,
  open_db-throws, Reported-later, Reported-bind, Reported-now, Stage, Stage-then, execute-Stage,
  check-Stage, passes, fails_at,
}

module _ (fails : ℕ → Bool) (path : Str) where
  module _ (cache meta index : Name) where
    -- The names after the last statement.
    abbrev pub indexed : Schema → Schema
    indexed schema = if lists schema index then schema else index ∷ schema

    -- How the last statement ends, on a file that lists `schema`.
    data Indexed (b : Bool) (schema : Schema) (s : Disk) (o : Outcome Error Disk Bool)
        : Type 0 where
      done :
          (t : Disk)
          → lists schema cache ≡ true
          → o ≡ returns b t
          → t.files path ≡ some (indexed schema)
          → Indexed b schema s o
      lacks_table :
          (t : Disk)
          → lists schema cache ≡ false
          → o ≡ throws simple_failed t
          → t.files path ≡ some schema
          → Indexed b schema s o
      reports : Reported fails path s o → Indexed b schema s o

    index_made :
        (schema : Schema)
        → lists schema cache ≡ true
        → sql_create_index cache index schema ≡ some (indexed schema)
    unfolding sql_create_index
    index_made schema e = ground arith

    index_refused :
        (schema : Schema) → lists schema cache ≡ false → sql_create_index cache index schema ≡ none
    unfolding sql_create_index
    index_refused schema e = ground arith

    abbrev finish : Bool → M Bool
    finish b = execute fails path (sql_create_index cache index) >> pure b

    finish-Indexed :
        (b : Bool) (schema : Schema) (s : Disk)
        → s.files path ≡ some schema
        → Indexed b schema s (finish b s)
    finish-Indexed b schema s e = elim (Bool-cases (fails s.clock)) [
      | inl x ↦ reports (
          Reported-bind fails path run (λ _. pure b) s
            (Reported-now fails path simple_failed s _ x (execute-fails fails path f s x)))
      | inr x ↦ elim (Bool-cases (lists schema cache)) [
        | inl l ↦
            done (written path (indexed schema) (ticked s)) l
              (bind-returns run (λ _. pure b) s _ tt
                (execute-writes fails path f s (indexed schema) x
                  (ap f same ∙ index_made schema l)))
              (written-file fails path (indexed schema) (ticked s))
        | inr l ↦
            lacks_table (ticked s) l
              (bind-throws run (λ _. pure b) s (ticked s) simple_failed
                (execute-refuses fails path f s x (ap f same ∙ index_refused schema l)))
              e
      ]
    ]
      where
        f : Schema → Option Schema
        f = sql_create_index cache index

        run : M (Unit {0})
        run = execute fails path f

        same : schema_or_empty (s.files path) ≡ schema
        same = ap schema_or_empty e

    -- How opening ends: in a new database with the two tables and the index, in the one that was
    -- there with the index added, or in an error, of a file without the table of the entries or of
    -- the engine.
    pub data Opened (s : Disk) (o : Outcome Error Disk Bool) : Type 0 where
      created :
          (t : Disk)
          → s.files path ≡ none
          → o ≡ returns true t
          → t.files path ≡ some (index ∷ meta ∷ cache ∷ [])
          → Opened s o
      found :
          (schema : Schema) (t : Disk)
          → s.files path ≡ some schema
          → lists schema cache ≡ true
          → o ≡ returns false t
          → t.files path ≡ some (indexed schema)
          → Opened s o
      lacks :
          (schema : Schema) (t : Disk)
          → s.files path ≡ some schema
          → lists schema cache ≡ false
          → o ≡ throws simple_failed t
          → t.files path ≡ some schema
          → Opened s o
      reported : Reported fails path s o → Opened s o

    -- The rest of the constructor after `open`.
    abbrev rest : Bool → M Bool
    rest exists = tables fails cache meta path exists >> finish (not exists)

    rest-Indexed :
        (b : Bool) (schema : Schema) (s : Disk)
        → Stage fails path (some schema) s (tables fails cache meta path b s)
        → Indexed (not b) schema s (rest b s)
    rest-Indexed b schema s (fails_at x) =
        reports
          (Reported-bind fails path (tables fails cache meta path b) (λ _. finish (not b)) s x)
    rest-Indexed b schema s (passes t e f le) =
        subst (Indexed (not b) schema s)
          (sym (bind-returns (tables fails cache meta path b) (λ _. finish (not b)) s t tt e))
          (later (finish (not b) t) (finish-Indexed (not b) schema t f))
      where
        later :
            (o : Outcome Error Disk Bool) → Indexed (not b) schema t o → Indexed (not b) schema s o
        later o (done u l r g) = done u l r g
        later o (lacks_table u l r g) = lacks_table u l r g
        later o (reports x) = reports (Reported-later fails path s t o le x)

    old-Stage :
        (schema : Schema) (s : Disk)
        → s.files path ≡ some schema
        → Stage fails path (some schema) s (tables fails cache meta path true s)
    unfolding tables
    old-Stage schema s e =
        Stage-then fails path (some schema) (some schema) (check fails) (check fails) s
          (check-Stage fails path (some schema) s e)
          (λ t g. check-Stage fails path (some schema) t g)

    create_lem :
        (name : Name) (schema : Schema)
        → lists schema name ≡ false
        → sql_create name schema ≡ some (name ∷ schema)
    unfolding sql_create
    create_lem name schema e = rw (e, sql_create) refl

    module _ (new_meta : lists (cache ∷ []) meta ≡ false) where
      new-Stage :
          (s : Disk)
          → s.files path ≡ none
          → Stage fails path (some (meta ∷ cache ∷ [])) s (tables fails cache meta path false s)
      unfolding tables lists
      new-Stage s e =
          Stage-then fails path (some (cache ∷ [])) (some (meta ∷ cache ∷ []))
            (execute fails path (sql_create cache)) (execute fails path (sql_create meta)) s
            (execute-Stage fails path (sql_create cache) s (cache ∷ [])
              (ap (λ o. sql_create cache (schema_or_empty o)) e ∙ create_lem cache [] refl))
            (λ t g. execute-Stage fails path (sql_create meta) t (meta ∷ cache ∷ []) (
              ap (λ o. sql_create meta (schema_or_empty o)) g
              ∙ create_lem meta (cache ∷ []) new_meta))

      module _ (has_cache : lists (meta ∷ cache ∷ []) cache ≡ true)
          (new_index : lists (meta ∷ cache ∷ []) index ≡ false) where
        rest_new-Opened : (s : Disk) → s.files path ≡ none → Opened s (rest false (ticked s))
        rest_new-Opened s e = go (rest-Indexed false _ (ticked s) (new-Stage (ticked s) e))
          where
            go :
                {o : Outcome Error Disk Bool}
                → Indexed true (meta ∷ cache ∷ []) (ticked s) o
                → Opened s o
            go (done t l r g) = created t e r (g ∙ rw (new_index, indexed) refl)
            go (lacks_table t l r g) = absurd (ground arith)
            go (reports x) = reported (Reported-later fails path s (ticked s) _ (omega arith) x)

        rest_old-Opened :
            (schema : Schema) (s : Disk)
            → s.files path ≡ some schema
            → Opened s (rest true (ticked s))
        rest_old-Opened schema s e =
            go (rest-Indexed true schema (ticked s) (old-Stage schema (ticked s) e))
          where
            go : {o : Outcome Error Disk Bool} → Indexed false schema (ticked s) o → Opened s o
            go (done t l r g) = found schema t e l r g
            go (lacks_table t l r g) = lacks schema t e l r g
            go (reports x) = reported (Reported-later fails path s (ticked s) _ (omega arith) x)

        prepare-opened :
            (s : Disk)
            → fails s.clock ≡ false
            → prepare fails cache meta index path s ≡ rest (is_some (s.files path)) (ticked s)
        unfolding prepare
        prepare-opened s x =
            bind-returns (open_db fails path) rest s (ticked s) (is_some (s.files path))
              (open_db-returns fails path s x)

        prepare-fails :
            (s : Disk)
            → fails s.clock ≡ true
            → prepare fails cache meta index path s ≡ throws open_failed (ticked s)
        unfolding prepare
        prepare-fails s x =
            bind-throws (open_db fails path) rest s (ticked s) open_failed
              (open_db-throws fails path s x)

        pub prepare-Opened : (s : Disk) → Opened s (prepare fails cache meta index path s)
        prepare-Opened s = elim (Bool-cases (fails s.clock)) [
          | inl x ↦ reported (Reported-now fails path open_failed s _ x (prepare-fails s x))
          | inr x ↦
              subst (Opened s) (sym (prepare-opened s x)) (elim (Option-cases (s.files path)) [
                | inl e ↦
                    subst (λ o. Opened s (rest (is_some o) (ticked s))) (sym e)
                      (rest_new-Opened s e)
                | inr (schema, e) ↦
                    subst (λ o. Opened s (rest (is_some o) (ticked s))) (sym e)
                      (rest_old-Opened schema s e)
              ])
        ]

construct-returns :
    (is_directory : Str → Bool) (work_dir db_name path : Str) (s : Disk)
    → is_directory work_dir ≡ true
    → path_of work_dir db_name ≡ some path
    → construct is_directory work_dir db_name s ≡ returns path s
unfolding construct
construct-returns is_directory work_dir db_name path s d e = rw (d, e) refl

-- With a directory that is there, the constructors of SQLiteLRU and of SQLiteLFUDA report a file
-- that was not there as new and leave it with the two tables and the index; on a file that lists
-- the table of the entries they report that it is not new and add the index where it was missing;
-- on any other file they throw and change nothing; or they throw for an error that the engine
-- reported in one of their calls.
pub adapters_open :
    (is_directory : Str → Bool) (fails : ℕ → Bool) (work_dir db_name path : Str) (s : Disk)
    → is_directory work_dir ≡ true
    → path_of work_dir db_name ≡ some path
    → Opened fails path cache_lru meta_lru index_lru s
        (sqlite_lru fails is_directory work_dir db_name s)
      × Opened fails path cache_lfuda meta_lfuda index_lfuda s
          (sqlite_lfuda fails is_directory work_dir db_name s)
unfolding sqlite_lru sqlite_lfuda lists
adapters_open is_directory fails work_dir db_name path s d e =
    let at = construct-returns is_directory work_dir db_name path s d e in
    let begin = construct is_directory work_dir db_name in
    let lru = prepare fails cache_lru meta_lru index_lru in
    let lfuda = prepare fails cache_lfuda meta_lfuda index_lfuda in
    (
      subst (Opened fails path cache_lru meta_lru index_lru s)
          (sym (bind-returns begin lru s s path at))
          (prepare-Opened fails path cache_lru meta_lru index_lru refl refl refl s),
      subst (Opened fails path cache_lfuda meta_lfuda index_lfuda s)
          (sym (bind-returns begin lfuda s s path at))
          (prepare-Opened fails path cache_lfuda meta_lfuda index_lfuda refl refl refl s),
    )
