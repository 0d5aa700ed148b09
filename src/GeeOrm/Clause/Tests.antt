-- ===== src/GeeOrm/Clause/Tests.antt =====
-- The statements of clause_test.go, and inputs for the theorems.
use days_golang_master.Base.{
  ℕ, ◌≡◌, refl, codes, List, [], ◌∷◌, join, length, ℕ_discrete, text_discrete,
}
use days_golang_master.Base.Table
use days_golang_master.GeeOrm.Clause.{
  Arguments, select, limit, where_desc, order_by, values, select_type, where_type, order_by_type,
  limit_type, values_type, bind_vars, gen_bind_vars, write_rows, _values, _select, _limit, _where,
  _order_by, generate, new, set, build_from, build,
}
use days_golang_master.GeeOrm.Clause.Marks.{marks}
use days_golang_master.GeeOrm.Clause.Built.{set_all, build-marks}

-- The calls of Set in testSelect, the latest first; the values are numbers.
abbrev parts : List (Arguments ℕ)
parts =
    order_by (codes "Age ASC")
    ∷ where_desc (codes "Name = ?") (7 ∷ [])
    ∷ select (codes "User") (codes "*" ∷ [])
    ∷ limit 3
    ∷ []

abbrev orders : List ℕ
orders = select_type ∷ where_type ∷ order_by_type ∷ limit_type ∷ []

builds_select :
    build orders (set_all parts)
    ≡ (codes "SELECT * FROM User WHERE Name = ? ORDER BY Age ASC LIMIT ?", 7 ∷ 3 ∷ [])
unfolding build build_from set generate new _select _limit _where _order_by Table.get Table.put
    ℕ_discrete join
builds_select = refl

-- Two rows of an insertion.
abbrev rows : List (List ℕ)
rows = (1 ∷ 2 ∷ []) ∷ (3 ∷ 4 ∷ []) ∷ []

builds_values :
    build (values_type ∷ []) (set_all (values rows ∷ []))
    ≡ (codes "VALUES (?, ?), (?, ?)", 1 ∷ 2 ∷ 3 ∷ 4 ∷ [])
unfolding build build_from set generate new _values write_rows gen_bind_vars bind_vars Table.get
    Table.put ℕ_discrete text_discrete join
builds_values = refl

build-marks_example :
    marks (build orders (set_all parts)).0 ≡ length (build orders (set_all parts)).1
unfolding ℕ_discrete
build-marks_example = build-marks parts orders (refl, (refl, ((refl, (refl, tt)), (tt, tt))))
