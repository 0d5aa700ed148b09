-- ===== src/GeeOrm/Engine.antt =====
-- gee-orm/day7-migrate/geeorm.go: the engine, transactions, and the migration of a table to the fields
-- of its struct.
--
-- The outcome of a transaction is that of its function, or the error of its end; a panic is thrown
-- again, so that it is an outcome too.
pub mod Atomic
mod Tests
use days_golang_master.Base.{
  ℕ, Text, codes, text_discrete, Option, none, some, List, [], ◌∷◌, ◌++◌, join, ite, Bool, true,
  false, Run,
}
use days_golang_master.Base.Table
use days_golang_master.Base.Table.{Table}
use days_golang_master.GeeOrm.Schema.{Schema, Field, get_field}
use days_golang_master.GeeOrm.Session.{
  Database, Session, Act, Ended, returned, panicked, ◌>>=◌, ◌>>◌, after_end, pure, crash, new, raw,
  ref_table, exec, query_columns, begin, commit, rollback, create_table, has_table, model,
}

-- NewEngine: the engine, which has the dialect, or nil, and an error, or nil; the first two
-- parameters are the errors of sql.Open and Ping.
unfoldable pub new_engine :
    {D : Type 0} → Option ℕ → Option ℕ → Text → Table Text D → Option D × Option ℕ
new_engine (some e) ping driver dialects = (none, some e)
new_engine none (some e) driver dialects = (none, some e)
new_engine none none driver dialects = (Table.get text_discrete driver dialects, none)

-- mapB[v]
unfoldable pub has_name : Text → List Text → Bool
has_name v [] = false
has_name v (b ∷ bs) = let rest = has_name v bs in ite (text_discrete v b) true rest

unfoldable pub difference : List Text → List Text → List Text
difference [] b = []
difference (v ∷ a) b =
    let rest = difference a b in elim (has_name v b) [ true ↦ rest | false ↦ v ∷ rest ]

module _ {V S : Type 0} (d : Database V S) where
  -- The deferred function of Transaction, by how `f` ended.
  unfoldable pub finish : Session V S × Ended (Option ℕ) → Session V S × Ended (Option ℕ)
  finish (s, panicked) = ((rollback d s).0, panicked)
  finish (s, returned (some e)) = ((rollback d s).0, returned (some e))
  finish (s, returned none) = commit d s

  -- Transaction, with its error
  unfoldable pub transaction : Act V S (Option ℕ) → S → Session V S × Ended (Option ℕ)
  transaction f store =
      after_end (λ err s. elim err [ some e ↦ (s, returned (some e)) | none ↦ finish (f s) ])
        (begin d (new store))

  abbrev pub add_column : Schema → Field → Text
  add_column table f =
      codes "ALTER TABLE "
      ++ (table.name
          ++ (codes " ADD COLUMN " ++ (f.name ++ (codes " " ++ (f.data_type ++ codes ";")))))

  -- The loop over addCols: a name without a field is a nil pointer, and an error ends the loop.
  unfoldable pub add_columns : Schema → List Text → Act V S (Option ℕ)
  add_columns table [] = pure none
  add_columns table (col ∷ cols) = elim (get_field col table) [
    | none ↦ crash
    | some f ↦ do
      raw (add_column table f) []
      err ← exec d
      elim err [ some e ↦ pure (some e) | none ↦ add_columns table cols ]
  ]

  -- The end of Migrate: the table is made again from the columns that are fields.
  unfoldable pub remove_columns : Schema → Act V S (Option ℕ)
  remove_columns table = do
    raw
        (codes "CREATE TABLE tmp_"
          ++ (table.name
              ++ (codes " AS SELECT "
                  ++ (join (codes ", ") table.field_names
                      ++ (codes " from " ++ (table.name ++ codes ";"))))))
        []
    raw (codes "DROP TABLE " ++ (table.name ++ codes ";")) []
    raw
        (codes "ALTER TABLE tmp_"
          ++ (table.name ++ (codes " RENAME TO " ++ (table.name ++ codes ";"))))
        []
    exec d

  -- Migrate, the part for a table that exists.
  unfoldable pub change_table : Act V S (Option ℕ)
  change_table = do
    table ← ref_table
    raw (codes "SELECT * FROM " ++ (table.name ++ codes " LIMIT 1")) []
    columns ← query_columns d
    err ← add_columns table (difference table.field_names columns)
    elim err [
      | some e ↦ pure (some e)
      | none ↦ elim (difference columns table.field_names) [
        | [] ↦ pure none
        | _ ∷ _ ↦ remove_columns table
      ]
    ]

  -- The function that Migrate passes to Transaction, for the Parse of its value.
  unfoldable pub migrate_in : (Schema → Bool) → Run Schema → Act V S (Option ℕ)
  migrate_in has_type parsed = do
    model has_type parsed
    exists ← has_table d
    elim exists [ true ↦ change_table | false ↦ create_table d ]

  unfoldable pub migrate : (Schema → Bool) → Run Schema → S → Session V S × Ended (Option ℕ)
  migrate has_type parsed store = transaction (migrate_in has_type parsed) store
