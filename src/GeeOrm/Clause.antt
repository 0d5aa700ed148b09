-- ===== src/GeeOrm/Clause.antt =====
-- gee-orm/day7-migrate/clause/clause.go and generator.go: the parts of an SQL statement, each with
-- the values of its placeholders, and the statement that Build puts together.
--
-- The values of the database are a parameter `V`. The arguments of Set have the types that the
-- sessions pass, so that no type assertion of a generator fails; a map of fields is the list of its
-- pairs in the order of the iteration.
pub mod Marks
pub mod Built
mod Tests
use days_golang_master.Base.{
  ℕ, zero, suc, Text, codes, Option, none, some, List, [], ◌∷◌, ◌++◌, join, map, ite, ℕ_discrete,
  text_discrete, length,
}
use days_golang_master.Base.Table
use days_golang_master.Base.Table.{Table}

-- Type, with the values of its constants.
abbrev pub insert_type : ℕ
insert_type = 0

abbrev pub values_type : ℕ
values_type = 1

abbrev pub select_type : ℕ
select_type = 2

abbrev pub limit_type : ℕ
limit_type = 3

abbrev pub where_type : ℕ
where_type = 4

abbrev pub order_by_type : ℕ
order_by_type = 5

abbrev pub update_type : ℕ
update_type = 6

abbrev pub delete_type : ℕ
delete_type = 7

abbrev pub count_type : ℕ
count_type = 8

-- A type of a clause with its arguments.
pub data Arguments (V : Type 0) : Type 0 where
  insert select : Text → List Text → Arguments V
  values : List (List V) → Arguments V
  limit : V → Arguments V
  where_desc : Text → List V → Arguments V
  order_by delete_from count_of : Text → Arguments V
  update : Text → List (Text × V) → Arguments V

pub record Clause (V : Type 0) : Type 0 where
  pub sql : Table ℕ Text
  pub sql_vars : Table ℕ (List V)

unfoldable pub bind_vars : ℕ → List Text
bind_vars zero = []
bind_vars (suc n) = codes "?" ∷ bind_vars n

unfoldable pub gen_bind_vars : ℕ → Text
gen_bind_vars num = join (codes ", ") (bind_vars num)

module _ {V : Type 0} where
  unfoldable pub _insert : Text → List Text → Text × List V
  _insert table_name fields = (
    codes "INSERT INTO " ++ (table_name ++ (codes " (" ++ (join (codes ",") fields ++ codes ")"))),
    [],
  )

  -- The loop of _values: bindStr, the text and the values so far.
  unfoldable pub write_rows : Text → Text → List V → List (List V) → Text × List V
  write_rows bind_str sql vars [] = (sql, vars)
  write_rows bind_str sql vars (v ∷ rows) =
      let bind : Text = ite (text_discrete bind_str []) (gen_bind_vars (length v)) bind_str in
      let comma : Text = elim rows [ [] ↦ [] | _ ∷ _ ↦ codes ", " ] in
      write_rows bind (sql ++ (codes "(" ++ (bind ++ (codes ")" ++ comma)))) (vars ++ v) rows

  unfoldable pub _values : List (List V) → Text × List V
  _values rows = write_rows [] (codes "VALUES ") [] rows

  unfoldable pub _select : Text → List Text → Text × List V
  _select table_name fields =
      (codes "SELECT " ++ (join (codes ",") fields ++ (codes " FROM " ++ table_name)), [])

  unfoldable pub _limit : V → Text × List V
  _limit v = (codes "LIMIT ?", v ∷ [])

  unfoldable pub _where : Text → List V → Text × List V
  _where desc vars = (codes "WHERE " ++ desc, vars)

  unfoldable pub _order_by : Text → Text × List V
  _order_by order = (codes "ORDER BY " ++ order, [])

  unfoldable pub _update : Text → List (Text × V) → Text × List V
  _update table_name m = (
    codes "UPDATE "
        ++ (table_name
            ++ (codes " SET " ++ join (codes ", ") (map (λ (k, v). k ++ codes " = ?") m))),
    map (λ (k, v). v) m,
  )

  unfoldable pub _delete : Text → Text × List V
  _delete table_name = (codes "DELETE FROM " ++ table_name, [])

  unfoldable pub _count : Text → Text × List V
  _count table_name = _select table_name (codes "count(*)" ∷ [])

  -- The generator of a type, and the type.
  unfoldable pub generate : Arguments V → ℕ × (Text × List V)
  generate (insert t fields) = (insert_type, _insert t fields)
  generate (values rows) = (values_type, _values rows)
  generate (select t fields) = (select_type, _select t fields)
  generate (limit v) = (limit_type, _limit v)
  generate (where_desc desc vars) = (where_type, _where desc vars)
  generate (order_by order) = (order_by_type, _order_by order)
  generate (update t m) = (update_type, _update t m)
  generate (delete_from t) = (delete_type, _delete t)
  generate (count_of t) = (count_type, _count t)

  unfoldable pub new : Clause V
  new = record { sql = []; sql_vars = [] }

  unfoldable pub set : Arguments V → Clause V → Clause V
  set args c =
      let (name, (sql, vars)) = generate args in
      record {
        sql = Table.put ℕ_discrete name sql c.sql;
        sql_vars = Table.put ℕ_discrete name vars c.sql_vars;
      }

  -- The loop of Build, with the texts and the values so far.
  unfoldable pub build_from : Clause V → List ℕ → List Text → List V → Text × List V
  build_from c [] sqls vars = (join (codes " ") sqls, vars)
  build_from c (order ∷ orders) sqls vars =
      let skip = build_from c orders sqls vars in
      let keep =
        λ (sql : Text) (vs : List V). build_from c orders (sqls ++ sql ∷ []) (vars ++ vs) in
      elim (Table.get ℕ_discrete order c.sql) [
        | none ↦ skip
        | some sql ↦ elim (Table.get ℕ_discrete order c.sql_vars) [
          | none ↦ keep sql []
          | some vs ↦ keep sql vs
        ]
      ]

  unfoldable pub build : List ℕ → Clause V → Text × List V
  build orders c = build_from c orders [] []
