-- ===== src/GeeOrm/Session.antt =====
-- gee-orm/day7-migrate/session: raw.go, table.go and transaction.go.
--
-- The database is a parameter: a state with its operations, as database/sql has them. The dialect is
-- the one of the repository, sqlite3. The values of the database are a type `V`. Logging is left out;
-- a statement that goes through a transaction is told apart by the handle that it is sent to.
use days_golang_master.Base.{
  ℕ, Text, codes, text_discrete, Option, none, some, List, [], ◌∷◌, ◌++◌, map, join, Bool, true,
  false, ite, Run, done, panic, spin,
}
use days_golang_master.GeeOrm.Clause.{Clause}
use days_golang_master.GeeOrm.Schema.{Schema, Field, table_exist_sql}

-- sql.DB or sql.Tx
pub data Handle : Type 0 where
  on_db on_tx : Handle

-- What a session asks of the database. An error is a number.
pub record Database (V S : Type 0) : Type 0 where
  pub begin : S → S × Option ℕ
  pub commit : S → S × Option ℕ
  pub rollback : S → S × Option ℕ
  -- Exec, with the error
  pub exec : Handle → Text → List V → S → S × Option ℕ
  -- QueryRow and Scan into a string, which stays empty after an error
  pub query_text : Handle → Text → List V → S → S × Text
  -- Query and Columns: none if Query fails, and no names if Columns does
  pub query_columns : Handle → Text → List V → S → S × Option (List Text)
  pub text_value : Text → V

-- A session, with the state of the database that it works on.
pub record Session (V S : Type 0) : Type 0 where
  pub store : S
  pub tx : Handle
  pub ref_table : Option Schema
  pub clause : Clause V
  pub sql : Text
  pub sql_vars : List V

-- How a function ends.
pub data Ended (A : Type 0) : Type 0 where
  returned : A → Ended A
  panicked : Ended A

abbrev pub Act : Type 0 → Type 0 → Type 0 → Type 0
Act V S A = Session V S → Session V S × Ended A

abbrev pub empty_clause : {V : Type 0} → Clause V
empty_clause = record { sql = []; sql_vars = [] }

module _ {V S : Type 0} where
  unfoldable pub after_end :
      {A B : Type 0} → (A → Act V S B) → Session V S × Ended A → Session V S × Ended B
  after_end f (s, returned a) = f a s
  after_end f (s, panicked) = (s, panicked)

  infixl 5 ◌>>=◌
  abbrev pub ◌>>=◌ : {A B : Type 0} → Act V S A → (A → Act V S B) → Act V S B
  ◌>>=◌ m f s = after_end f (m s)

  infixl 5 ◌>>◌
  abbrev pub ◌>>◌ : {A B : Type 0} → Act V S A → Act V S B → Act V S B
  ◌>>◌ m n s = after_end (λ _. n) (m s)

  abbrev pub pure : {A : Type 0} → A → Act V S A
  pure a s = (s, returned a)

  abbrev pub crash : {A : Type 0} → Act V S A
  crash s = (s, panicked)

  unfoldable pub new : S → Session V S
  new store = record {
    store = store;
    tx = on_db;
    ref_table = none;
    clause = empty_clause;
    sql = [];
    sql_vars = [];
  }

  unfoldable pub clear : Session V S → Session V S
  clear s = record s { sql = []; sql_vars = []; clause = empty_clause }

  -- Raw
  unfoldable pub raw : Text → List V → Act V S Unit
  raw sql values s =
      (record s { sql = s.sql ++ (sql ++ codes " "); sql_vars = s.sql_vars ++ values }, returned tt)

  -- Model; `parsed` is Parse of the value, which may panic, and `has_type` tells whether the value has
  -- the type of the model of a table.
  unfoldable pub parse_model : Run Schema → Act V S Unit
  parse_model (done table) s = (record s { ref_table = some table }, returned tt)
  parse_model panic s = (s, panicked)
  parse_model spin s = (s, panicked)

  unfoldable pub model : (Schema → Bool) → Run Schema → Act V S Unit
  model has_type parsed s = elim s.ref_table [
    | none ↦ parse_model parsed s
    | some table ↦ elim (has_type table) [ true ↦ (s, returned tt) | false ↦ parse_model parsed s ]
  ]

  -- RefTable, for a field of the table, which is nil before Model.
  unfoldable pub ref_table : Act V S Schema
  ref_table s = elim s.ref_table [ none ↦ (s, panicked) | some table ↦ (s, returned table) ]

  module _ (d : Database V S) where
    -- Exec, with the error
    unfoldable pub exec : Act V S (Option ℕ)
    exec s =
        let (store, err) = d.exec s.tx s.sql s.sql_vars s.store in
        (clear (record s { store = store }), returned err)

    -- QueryRow, scanned into a string
    unfoldable pub query_text : Act V S Text
    query_text s =
        let (store, t) = d.query_text s.tx s.sql s.sql_vars s.store in
        (clear (record s { store = store }), returned t)

    -- QueryRows and Columns: the rows are nil after an error.
    unfoldable pub query_columns : Act V S (List Text)
    query_columns s =
        let (store, columns) = d.query_columns s.tx s.sql s.sql_vars s.store in
        (clear (record s { store = store }), elim columns [ none ↦ panicked | some c ↦ returned c ])

    -- Begin; after an error the tx is nil.
    unfoldable pub begin : Act V S (Option ℕ)
    begin s =
        let (store, err) = d.begin s.store in
        (record s { store = store; tx = elim err [ none ↦ on_tx | some _ ↦ on_db ] }, returned err)

    unfoldable pub commit : Act V S (Option ℕ)
    commit s = let (store, err) = d.commit s.store in (record s { store = store }, returned err)

    unfoldable pub rollback : Act V S (Option ℕ)
    rollback s = let (store, err) = d.rollback s.store in (record s { store = store }, returned err)

    abbrev pub column_of : Field → Text
    column_of field = field.name ++ (codes " " ++ (field.data_type ++ (codes " " ++ field.tag)))

    unfoldable pub create_table : Act V S (Option ℕ)
    create_table = do
      table ← ref_table
      raw
          (codes "CREATE TABLE "
            ++ (table.name
                ++ (codes " (" ++ (join (codes ",") (map column_of table.fields) ++ codes ");"))))
          []
      exec

    unfoldable pub drop_table : Act V S (Option ℕ)
    drop_table = do table ← ref_table; raw (codes "DROP TABLE IF EXISTS " ++ table.name) []; exec

    unfoldable pub has_table : Act V S Bool
    has_table = do
      table ← ref_table
      raw table_exist_sql (d.text_value table.name ∷ [])
      tmp ← query_text
      pure (ite (text_discrete tmp table.name) true false)
