-- ===== src/GeeOrm/Engine/Tests.antt =====
-- A migration of geeorm_test.go over a database that keeps the statements it is sent, and inputs for
-- the theorems.
use days_golang_master.Base.{
  ◌≡◌, refl, Text, codes, none, some, List, [], ◌∷◌, ◌++◌, false, true, join, text_discrete,
  ℕ_discrete,
}
use days_golang_master.Base.Table
use days_golang_master.GeeOrm.Schema.{
  StructField, string_kind, int_kind, struct_kind, parse, parse_from, field_of, data_type_of,
  get_field,
}
use days_golang_master.GeeOrm.Session.{
  Database, on_tx, new, begin, commit, rollback, after_end, raw, model, parse_model, ref_table,
  exec, query_text, query_columns, clear, has_table, panicked,
}
use days_golang_master.GeeOrm.Engine.{
  difference, has_name, transaction, finish, migrate, migrate_in, change_table, add_columns,
  remove_columns, new_engine,
}
use days_golang_master.GeeOrm.Engine.Atomic.{IsTransactional, IsAtomic, migrate-IsAtomic}

-- The statements that are committed, and those of the transaction. There is the table User with the
-- columns Name and XXX.
abbrev memory : Database Text (List Text × List Text)
memory = record {
  begin = λ s. ((s.0, s.0), none);
  commit = λ s. ((s.1, s.1), none);
  rollback = λ s. ((s.0, s.0), none);
  exec = λ h q v s. ((s.0, s.1 ++ (q ∷ [])), none);
  query_text = λ h q v s. (s, codes "User");
  query_columns = λ h q v s. (s, some (codes "Name" ∷ codes "XXX" ∷ []));
  text_value = λ t. t;
}

memory-IsTransactional : IsTransactional {D = List Text} (λ s. s.0) memory
memory-IsTransactional = record {
  begin_keeps = λ s. refl;
  rollback_keeps = λ s. refl;
  commit_keeps = λ s e h. cc;
  exec_keeps = λ q v s. refl;
  text_keeps = λ q v s. refl;
  columns_keeps = λ q v s. refl;
}

abbrev user : List StructField
user =
    record {
      name = codes "Name";
      is_anonymous = false;
      is_exported = true;
      kind = string_kind;
      tag = some (codes "PRIMARY KEY");
    }
    ∷ record {
      name = codes "Age";
      is_anonymous = false;
      is_exported = true;
      kind = int_kind;
      tag = none;
    }
    ∷ []

migrates_user :
    (migrate memory (λ _. false) (parse (codes "User") none user) ([], [])).0.store.0
    ≡ codes "ALTER TABLE User ADD COLUMN Age integer; "
      ∷ codes
          "CREATE TABLE tmp_User AS SELECT Name, Age from User; DROP TABLE User; ALTER TABLE tmp_User RENAME TO User; "
      ∷ []
unfolding migrate transaction finish migrate_in change_table add_columns remove_columns difference
    has_name begin commit after_end raw model parse_model ref_table exec query_text query_columns
    clear has_table new parse parse_from field_of data_type_of get_field Table.get Table.put
    text_discrete ℕ_discrete join
migrates_user = refl

-- A field that is a struct has no column type: the transaction is rolled back and the panic goes on.
migrates_nothing :
    migrate memory
      (λ _. false)
      (parse (codes "User") none (
        record {
          name = codes "X";
          is_anonymous = false;
          is_exported = true;
          kind = struct_kind;
          tag = none;
        }
        ∷ []))
      ([], [])
    ≡ (record (new ([], [])) { tx = on_tx }, panicked)
unfolding migrate transaction finish migrate_in begin rollback after_end model parse_model new parse
    parse_from field_of data_type_of
migrates_nothing = refl

-- An unknown driver: neither an engine nor an error.
makes_nothing : new_engine {D = Text} none none (codes "mysql") [] ≡ (none, none)
unfolding new_engine Table.get
makes_nothing = refl

migrate-IsAtomic_example :
    IsAtomic
      (λ s. s.0)
      memory
      memory-IsTransactional
      ([], [])
      (migrate memory (λ _. false) (parse (codes "User") none user) ([], []))
migrate-IsAtomic_example =
    migrate-IsAtomic (λ s. s.0) memory memory-IsTransactional (λ _. false)
      (parse (codes "User") none user) ([], [])
