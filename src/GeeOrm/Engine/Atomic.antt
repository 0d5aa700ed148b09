-- ===== src/GeeOrm/Engine/Atomic.antt =====
-- Transactions of gee-orm/day7-migrate/geeorm.go are all or nothing.
use days_golang_master.Base.{
  ℕ, Text, Option, none, some, List, [], ◌∷◌, ◌≡◌, ◌≢◌, refl, sym, ap, ◌∙◌, inl, inr, subst, Run,
  done, panic, spin, true, false, Bool, Option-cases, Bool-cases,
}
use days_golang_master.GeeOrm.Schema.{Schema, Field, get_field}
use days_golang_master.GeeOrm.Session.{
  on_db, on_tx, Database, Session, Act, Ended, returned, panicked, ◌>>=◌, ◌>>◌, after_end, pure,
  crash, new, clear, raw, ref_table, exec, query_text, query_columns, begin, commit, rollback,
  create_table, has_table, parse_model, model,
}
use days_golang_master.GeeOrm.Engine.{
  finish, transaction, add_column, add_columns, remove_columns, change_table, migrate_in, migrate,
  difference,
}

-- What database/sql promises of the committed data: begin, rollback, a commit that fails and what is
-- sent to a transaction leave it as it is.
pub record IsTransactional {V S D : Type 0} (committed : S → D) (d : Database V S) : Type 0 where
  pub begin_keeps : (s : S) → committed (d.begin s).0 ≡ committed s
  pub rollback_keeps : (s : S) → committed (d.rollback s).0 ≡ committed s
  pub commit_keeps :
      (s : S) (e : ℕ) → (d.commit s).1 ≡ some e → committed (d.commit s).0 ≡ committed s
  pub exec_keeps : (q : Text) (v : List V) (s : S) → committed (d.exec on_tx q v s).0 ≡ committed s
  pub text_keeps :
      (q : Text) (v : List V) (s : S) → committed (d.query_text on_tx q v s).0 ≡ committed s
  pub columns_keeps :
      (q : Text) (v : List V) (s : S) → committed (d.query_columns on_tx q v s).0 ≡ committed s

module _ {V S D : Type 0} (committed : S → D) where
  -- What is done in a transaction stays in it.
  abbrev pub Stays : {A : Type 0} → Session V S × Ended A → D → Type 0
  Stays r x = (r.0.tx ≡ on_tx) × (committed r.0.store ≡ x)

  abbrev pub Keeps : {A : Type 0} → Act V S A → Type 0
  Keeps m = (s : Session V S) → s.tx ≡ on_tx → Stays (m s) (committed s.store)

  after_end-Stays :
      {A B : Type 0} (f : A → Act V S B) (r : Session V S × Ended A) (x : D)
      → ((a : A) → Keeps (f a))
      → Stays r x
      → Stays (after_end f r) x
  unfolding after_end
  after_end-Stays f (s, returned a) x k (t, e) = let (t', e') = k a s t in (t', e' ∙ e)
  after_end-Stays f (s, panicked) x k h = h

  >>=-Keeps :
      {A B : Type 0} (m : Act V S A) (f : A → Act V S B)
      → Keeps m
      → ((a : A) → Keeps (f a))
      → Keeps (m >>= f)
  >>=-Keeps m f h k s t = after_end-Stays f (m s) (committed s.store) k (h s t)

  raw-Keeps : (sql : Text) (values : List V) → Keeps (raw sql values)
  unfolding raw
  raw-Keeps sql values s t = (t, refl)

  ref_table-Keeps : Keeps ref_table
  unfolding ref_table
  ref_table-Keeps s t = elim (Option-cases s.ref_table) [
    | inl e ↦ rw e (t, refl)
    | inr (table, e) ↦ rw e (t, refl)
  ]

  parse_model-Keeps : (parsed : Run Schema) → Keeps (parse_model parsed)
  unfolding parse_model
  parse_model-Keeps (done table) s t = (t, refl)
  parse_model-Keeps panic s t = (t, refl)
  parse_model-Keeps spin s t = (t, refl)

  model-Keeps : (has_type : Schema → Bool) (parsed : Run Schema) → Keeps (model has_type parsed)
  unfolding model parse_model
  model-Keeps has_type parsed s t = elim (Option-cases s.ref_table) [
    | inl e ↦ rw (e, model) (parse_model-Keeps parsed s t)
    | inr (table, e) ↦ elim (Bool-cases (has_type table)) [
      | inl k ↦ rw (e, k, model) (t, refl)
      | inr k ↦ rw (e, k, model) (parse_model-Keeps parsed s t)
    ]
  ]

  module _ (d : Database V S) (law : IsTransactional committed d) where
    exec-Keeps : Keeps (exec d)
    unfolding exec clear
    exec-Keeps s t = (t, rw t (law.exec_keeps s.sql s.sql_vars s.store))

    query_text-Keeps : Keeps (query_text d)
    unfolding query_text clear
    query_text-Keeps s t = (t, rw t (law.text_keeps s.sql s.sql_vars s.store))

    query_columns-Keeps : Keeps (query_columns d)
    unfolding query_columns clear
    query_columns-Keeps s t = (t, rw t (law.columns_keeps s.sql s.sql_vars s.store))

    has_table-Keeps : Keeps (has_table d)
    unfolding has_table
    has_table-Keeps = >>=-Keeps _ _ ref_table-Keeps (λ table.
        >>=-Keeps _ _ (raw-Keeps _ _) (λ _. >>=-Keeps _ _ query_text-Keeps (λ a s t. (t, refl))))

    create_table-Keeps : Keeps (create_table d)
    unfolding create_table
    create_table-Keeps =
        >>=-Keeps _ _ ref_table-Keeps (λ table. >>=-Keeps _ _ (raw-Keeps _ _) (λ _. exec-Keeps))

    end-Keeps :
        (m : Act V S (Option ℕ))
        → Keeps m
        → (err : Option ℕ) → Keeps (elim err [ some e ↦ pure (some e) | none ↦ m ])
    end-Keeps m h none = h
    end-Keeps m h (some e) = λ s t. (t, refl)

    column-Keeps :
        (table : Schema) (rest : Act V S (Option ℕ))
        → Keeps rest
        → (o : Option Field)
        → Keeps {A = Option ℕ} (elim o [
          | none ↦ crash
          | some f ↦ do
            raw (add_column d table f) []
            err ← exec d
            elim err [ some e ↦ pure (some e) | none ↦ rest ]
        ])
    column-Keeps table rest h none = λ s t. (t, refl)
    column-Keeps table rest h (some f) =
        >>=-Keeps _ _ (raw-Keeps (add_column d table f) [])
          (λ _. >>=-Keeps _ _ exec-Keeps (end-Keeps rest h))

    add_columns-Keeps : (table : Schema) (cols : List Text) → Keeps (add_columns d table cols)
    unfolding add_columns
    add_columns-Keeps table [] = λ s t. (t, refl)
    add_columns-Keeps table (col ∷ cols) =
        column-Keeps table (add_columns d table cols) (add_columns-Keeps table cols)
          (get_field col table)

    remove_columns-Keeps : (table : Schema) → Keeps (remove_columns d table)
    unfolding remove_columns
    remove_columns-Keeps table =
        >>=-Keeps _ _ (raw-Keeps _ _) (λ _.
          >>=-Keeps _ _ (raw-Keeps _ _) (λ _. >>=-Keeps _ _ (raw-Keeps _ _) (λ _. exec-Keeps)))

    removal-Keeps :
        (table : Schema) (cols : List Text)
        → Keeps {A = Option ℕ} (elim cols [ [] ↦ pure none | _ ∷ _ ↦ remove_columns d table ])
    removal-Keeps table [] = λ s t. (t, refl)
    removal-Keeps table (_ ∷ _) = remove_columns-Keeps table

    change_table-Keeps : Keeps (change_table d)
    unfolding change_table
    change_table-Keeps = >>=-Keeps _ _ ref_table-Keeps (λ table. >>=-Keeps _ _ (raw-Keeps _ _) (λ _.
        >>=-Keeps _ _ query_columns-Keeps (λ columns.
          >>=-Keeps _ _ (add_columns-Keeps table (difference table.field_names columns))
            (end-Keeps _ (removal-Keeps table (difference columns table.field_names))))))

    changed-Keeps :
        (exists : Bool) → Keeps (elim exists [ true ↦ change_table d | false ↦ create_table d ])
    changed-Keeps true = change_table-Keeps
    changed-Keeps false = create_table-Keeps

    migrate_in-Keeps :
        (has_type : Schema → Bool) (parsed : Run Schema) → Keeps (migrate_in d has_type parsed)
    unfolding migrate_in
    migrate_in-Keeps has_type parsed =
        >>=-Keeps _ _ (model-Keeps has_type parsed)
          (λ _. >>=-Keeps _ _ has_table-Keeps changed-Keeps)

    -- All or nothing: what was committed stays if there is an error or a panic, and without one the
    -- last thing was a commit that succeeded.
    abbrev pub IsAtomic : S → Session V S × Ended (Option ℕ) → Type 0
    IsAtomic store r =
        (r.1 ≢ returned none → committed r.0.store ≡ committed store)
        × (r.1 ≡ returned none → (s : S) × (d.commit s ≡ (r.0.store, none)))

    finish-IsAtomic :
        (store : S) (r : Session V S × Ended (Option ℕ))
        → committed r.0.store ≡ committed store
        → IsAtomic store (finish d r)
    unfolding finish rollback commit
    finish-IsAtomic store (s, panicked) h = (λ _. law.rollback_keeps s.store ∙ h, λ e. cc)
    finish-IsAtomic store (s, returned (some e)) h = (λ _. law.rollback_keeps s.store ∙ h, λ e. cc)
    finish-IsAtomic store (s, returned none) h = elim (Option-cases (d.commit s.store).1) [
      | inl e ↦
          (λ n. absurd (n (ap returned e)), λ _. (s.store, ap (λ o. ((d.commit s.store).0, o)) e))
      | inr (x, e) ↦ (λ _. law.commit_keeps s.store x e ∙ h, λ k. cc)
    ]

    -- The session after Begin.
    abbrev begun : S → Option ℕ → Session V S
    begun store err = record (new store) {
      store = (d.begin store).0;
      tx = elim err [ none ↦ on_tx | some _ ↦ on_db ];
    }

    begin-new :
        (store : S) (err : Option ℕ)
        → (d.begin store).1 ≡ err
        → begin d (new store) ≡ (begun store err, returned err)
    unfolding begin new
    begin-new store err e = ap (λ o. (begun store o, returned o)) e

    transaction_began :
        (f : Act V S (Option ℕ)) (store : S)
        → (d.begin store).1 ≡ none
        → transaction d f store ≡ finish d (f (begun store none))
    unfolding transaction after_end
    transaction_began f store e = rw (begin-new store none e) refl

    transaction_failed :
        (f : Act V S (Option ℕ)) (store : S) (x : ℕ)
        → (d.begin store).1 ≡ some x
        → transaction d f store ≡ (begun store (some x), returned (some x))
    unfolding transaction after_end
    transaction_failed f store x e = rw (begin-new store (some x) e) refl

    transaction-IsAtomic :
        (f : Act V S (Option ℕ)) → Keeps f → (store : S) → IsAtomic store (transaction d f store)
    transaction-IsAtomic f k store = elim (Option-cases (d.begin store).1) [
      | inl e ↦ subst (IsAtomic store) (sym (transaction_began f store e)) (
          finish-IsAtomic store (f (begun store none))
            ((k (begun store none) refl).1 ∙ law.begin_keeps store))
      | inr (x, e) ↦
          subst (IsAtomic store) (sym (transaction_failed f store x e))
            ((λ _. law.begin_keeps store), λ k. cc)
    ]

    -- Whatever the database answers, whether Parse panics, a statement fails or a column has no field:
    -- after a migration that returns an error or panics, what is committed is as it was; and a migration
    -- that returns no error ended with a commit that succeeded.
    pub migrate-IsAtomic :
        (has_type : Schema → Bool) (parsed : Run Schema) (store : S)
        → IsAtomic store (migrate d has_type parsed store)
    unfolding migrate
    migrate-IsAtomic has_type parsed store =
        transaction-IsAtomic (migrate_in d has_type parsed) (migrate_in-Keeps has_type parsed) store
