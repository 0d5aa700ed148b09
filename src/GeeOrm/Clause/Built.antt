-- ===== src/GeeOrm/Clause/Built.antt =====
-- The statement that Build of gee-orm/day7-migrate/clause/clause.go puts together from the parts
-- that were set.
use days_golang_master.Base.{
  ℕ, ◌≡◌, refl, ◌∙◌, Text, codes, Option, none, some, List, [], ◌∷◌, ◌++◌, if_pos, if_neg,
  ℕ_discrete, length, length-append, All, arith,
}
use days_golang_master.Base.Table
use days_golang_master.Base.Table.{Table, get-put}
use days_golang_master.GeeOrm.Clause.{Arguments, Clause, generate, new, set, build_from, build}
use days_golang_master.GeeOrm.Clause.Marks.{
  marks, total, marks-join, total-append, IsBound, Fits, generate-Fits,
}

module _ {V : Type 0} where
  -- A text of the clause beside its values.
  abbrev Agree : Option Text → Option (List V) → Type 0
  Agree none o = Unit
  Agree (some s) none = marks s ≡ 0
  Agree (some s) (some vs) = marks s ≡ length vs

  abbrev IsFitting : Clause V → Type 0
  IsFitting c =
      (name : ℕ) → Agree (Table.get ℕ_discrete name c.sql) (Table.get ℕ_discrete name c.sql_vars)

  set-IsFitting :
      (args : Arguments V) (c : Clause V) → IsBound args → IsFitting c → IsFitting (set args c)
  unfolding set
  set-IsFitting args c b h = λ name.
      rw (get-put ℕ_discrete name (generate args).0 (generate args).1.0 c.sql) (
        rw (get-put ℕ_discrete name (generate args).0 (generate args).1.1 c.sql_vars)
          (elim (ℕ_discrete (generate args).0 name) [
            | yes p ↦ rw (if_pos _ p) (rw (if_pos _ p) (generate-Fits args b))
            | no p ↦ rw (if_neg _ p) (rw (if_neg _ p) (h name))
          ]))

  -- The calls of Set, the latest first.
  abbrev pub set_all : List (Arguments V) → Clause V
  set_all [] = new
  set_all (args ∷ l) = set args (set_all l)

  set_all-IsFitting : (l : List (Arguments V)) → All IsBound l → IsFitting (set_all l)
  unfolding new Table.get
  set_all-IsFitting [] h = λ name. tt
  set_all-IsFitting (args ∷ l) (b, h) = set-IsFitting args (set_all l) b (set_all-IsFitting l h)

  build_from-Fits :
      (c : Clause V) (orders : List ℕ) (sqls : List Text) (vars : List V)
      → IsFitting c
      → total sqls ≡ length vars
      → Fits (build_from c orders sqls vars)
  unfolding build_from ℕ_discrete
  build_from-Fits c [] sqls vars f h = marks-join (codes " ") sqls refl ∙ h
  build_from-Fits c (order ∷ orders) sqls vars f h =
      build_next c order orders sqls vars (λ s vs e. build_from-Fits c orders s vs f e) h
        (Table.get ℕ_discrete order c.sql) (Table.get ℕ_discrete order c.sql_vars) (f order)
    where
      build_next :
          (c : Clause V) (order : ℕ) (orders : List ℕ) (sqls : List Text) (vars : List V)
          → ((s : List Text) (vs : List V) → total s ≡ length vs → Fits (build_from c orders s vs))
          → total sqls ≡ length vars
          → (o : Option Text) (w : Option (List V)) → Agree o w
          → Fits {V = V} (elim o [
            | none ↦ build_from c orders sqls vars
            | some sql ↦ elim w [
              | none ↦ build_from c orders (sqls ++ sql ∷ []) (vars ++ [])
              | some vs ↦ build_from c orders (sqls ++ sql ∷ []) (vars ++ vs)
            ]
          ])
      build_next c order orders sqls vars k h none w a = k sqls vars h
      build_next c order orders sqls vars k h (some sql) none a =
          k (sqls ++ sql ∷ []) (vars ++ [])
            (omega (arith, h, a, total-append sqls (sql ∷ []), length-append vars []))
      build_next c order orders sqls vars k h (some sql) (some vs) a =
          k (sqls ++ sql ∷ []) (vars ++ vs)
            (omega (arith, h, a, total-append sqls (sql ∷ []), length-append vars vs))

  -- Whatever parts were set, in whatever order Build puts them together: if names, fields and orders
  -- have no question mark, a condition has one for each of its values and the rows of an insertion
  -- have one length, then the statement has as many question marks as there are values beside it.
  pub build-marks :
      (l : List (Arguments V)) (orders : List ℕ)
      → All IsBound l
      → marks (build orders (set_all l)).0 ≡ length (build orders (set_all l)).1
  unfolding build
  build-marks l orders h = build_from-Fits (set_all l) orders [] [] (set_all-IsFitting l h) refl
