-- ===== src/GeeOrm/Clause/Marks.antt =====
-- The placeholders of a statement of gee-orm/day7-migrate/clause and the values beside it.
use days_golang_master.Base.{
  ℕ, zero, suc, ◌+◌, ◌≡◌, refl, ◌∙◌, inl, inr, ◌⊎◌, Text, codes, List, [], ◌∷◌, ◌++◌, join, map,
  ite, if_pos, if_neg, ℕ_discrete, text_discrete, length, length-append, All, arith,
}
use days_golang_master.GeeOrm.Clause.{
  Arguments, insert, select, values, limit, where_desc, order_by, delete_from, count_of, update,
  bind_vars, gen_bind_vars, _insert, write_rows, _values, _select, _limit, _where, _order_by,
  _update, _delete, _count, generate,
}

-- The number of question marks.
abbrev pub marks : Text → ℕ
marks [] = 0
marks (b ∷ s) = ite (ℕ_discrete b 63) 1 0 + marks s

abbrev pub total : List Text → ℕ
total [] = 0
total (t ∷ ts) = marks t + total ts

marks-append : (s t : Text) → marks (s ++ t) ≡ marks s + marks t
marks-append [] t = omega arith
marks-append (b ∷ s) t = omega (arith, marks-append s t)

pub marks-join : (sep : Text) (ts : List Text) → marks sep ≡ 0 → marks (join sep ts) ≡ total ts
unfolding join
marks-join sep [] h = refl
marks-join sep (t ∷ []) h = omega arith
marks-join sep (t ∷ u ∷ ts) h = omega (
  arith,
  h,
  marks-append t (sep ++ join sep (u ∷ ts)),
  marks-append sep (join sep (u ∷ ts)),
  marks-join sep (u ∷ ts) h,
)

pub total-append : (s t : List Text) → total (s ++ t) ≡ total s + total t
total-append [] t = omega arith
total-append (x ∷ s) t = omega (arith, total-append s t)

total-plain : (ts : List Text) → All (λ t. marks t ≡ 0) ts → total ts ≡ 0
total-plain [] h = refl
total-plain (t ∷ ts) (p, h) = omega (arith, p, total-plain ts h)

total-bind_vars : (n : ℕ) → total (bind_vars n) ≡ n
unfolding bind_vars ℕ_discrete
total-bind_vars zero = refl
total-bind_vars (suc n) = omega (arith, total-bind_vars n)

marks-gen_bind_vars : (n : ℕ) → marks (gen_bind_vars n) ≡ n
unfolding gen_bind_vars ℕ_discrete
marks-gen_bind_vars n = marks-join (codes ", ") (bind_vars n) refl ∙ total-bind_vars n

marks-plain : (s t : Text) → marks s ≡ 0 → marks (s ++ t) ≡ marks t
marks-plain s t h = omega (arith, marks-append s t, h)

marks-fields : (fs : List Text) → All (λ f. marks f ≡ 0) fs → marks (join (codes ",") fs) ≡ 0
unfolding ℕ_discrete
marks-fields fs h = marks-join (codes ",") fs refl ∙ total-plain fs h

marks-row :
    (sql bind comma : Text)
    → marks comma ≡ 0
    → marks (sql ++ (codes "(" ++ (bind ++ (codes ")" ++ comma)))) ≡ marks sql + marks bind
unfolding ℕ_discrete
marks-row sql bind comma h =
    let open_rest : marks (codes "(" ++ (bind ++ (codes ")" ++ comma)))
        ≡ marks (bind ++ (codes ")" ++ comma)) =
      marks-plain (codes "(") (bind ++ (codes ")" ++ comma)) refl in
    let close_rest : marks (codes ")" ++ comma) ≡ marks comma =
      marks-plain (codes ")") comma refl in
    omega (
      arith,
      marks-append sql (codes "(" ++ (bind ++ (codes ")" ++ comma))),
      open_rest,
      marks-append bind (codes ")" ++ comma),
      close_rest,
      h,
    )

next_bind {ℓ} :
    {V : Type ℓ} (n : ℕ) (bind : Text) (v : List V)
    → (bind ≡ []) ⊎ (marks bind ≡ n)
    → length v ≡ n
    → marks (ite (text_discrete bind []) (gen_bind_vars (length v)) bind) ≡ n
next_bind n bind v b e = elim (text_discrete bind []) [
  | yes p ↦ rw (if_pos _ p) (marks-gen_bind_vars (length v) ∙ e)
  | no p ↦ rw (if_neg _ p) (elim b [ inl q ↦ absurd (p q) | inr q ↦ q ])
]

comma_plain {ℓ} :
    {V : Type ℓ} (rows : List V) → marks (elim rows [ [] ↦ [] | _ ∷ _ ↦ codes ", " ]) ≡ 0
unfolding ℕ_discrete
comma_plain [] = refl
comma_plain (r ∷ rows) = refl

total-assignments :
    {V : Type 0} (m : List (Text × V))
    → All (λ (k, v). marks k ≡ 0) m
    → total (map (λ (k, v). k ++ codes " = ?") m) ≡ length (map (λ (k, v). v) m)
unfolding ℕ_discrete
total-assignments [] h = refl
total-assignments ((k, v) ∷ m) (p, h) =
    let one : marks (k ++ codes " = ?") ≡ 1 = marks-plain k (codes " = ?") p in
    omega (arith, one, total-assignments m h)

_insert-Fits :
    (W : Type 0) (t : Text) (fs : List Text)
    → marks t ≡ 0
    → All (λ f. marks f ≡ 0) fs
    → marks (_insert {V = W} t fs).0 ≡ 0
unfolding _insert ℕ_discrete
_insert-Fits W t fs p h =
    marks-plain (codes "INSERT INTO ") _ refl
    ∙ (marks-plain t _ p
        ∙ (marks-plain (codes " (") _ refl
            ∙ marks-plain (join (codes ",") fs) (codes ")") (marks-fields fs h)))

_select-Fits :
    (W : Type 0) (t : Text) (fs : List Text)
    → marks t ≡ 0
    → All (λ f. marks f ≡ 0) fs
    → marks (_select {V = W} t fs).0 ≡ 0
unfolding _select ℕ_discrete
_select-Fits W t fs p h =
    marks-plain (codes "SELECT ") _ refl
    ∙ (marks-plain (join (codes ",") fs) _ (marks-fields fs h)
        ∙ (marks-plain (codes " FROM ") t refl ∙ p))

module _ {V : Type 0} where
  -- Names, fields and orders have no question mark, a condition has one for each of its values, and
  -- the rows have the same length.
  abbrev pub IsBound : Arguments V → Type 0
  IsBound (insert t fields) = (marks t ≡ 0) × All (λ f. marks f ≡ 0) fields
  IsBound (select t fields) = (marks t ≡ 0) × All (λ f. marks f ≡ 0) fields
  IsBound (values rows) = (n : ℕ) × All (λ r. length r ≡ n) rows
  IsBound (limit v) = Unit
  IsBound (where_desc desc vars) = marks desc ≡ length vars
  IsBound (order_by order) = marks order ≡ 0
  IsBound (delete_from t) = marks t ≡ 0
  IsBound (count_of t) = marks t ≡ 0
  IsBound (update t m) = (marks t ≡ 0) × All (λ (k, v). marks k ≡ 0) m

  abbrev pub Fits : Text × List V → Type 0
  Fits p = marks p.0 ≡ length p.1

  -- The text behind a row, and the number of marks in one row.
  write_rows-Fits :
      (n : ℕ) (bind sql : Text) (vars : List V) (rows : List (List V))
      → (bind ≡ []) ⊎ (marks bind ≡ n)
      → marks sql ≡ length vars
      → All (λ r. length r ≡ n) rows
      → Fits (write_rows bind sql vars rows)
  unfolding write_rows
  write_rows-Fits n bind sql vars [] b h k = h
  write_rows-Fits n bind sql vars (v ∷ rows) b h (e, k) =
      let next : Text = ite (text_discrete bind []) (gen_bind_vars (length v)) bind in
      let full : marks next ≡ n = next_bind n bind v b e in
      write_rows-Fits n next _ (vars ++ v) rows (inr full)
        (marks-row sql next (elim rows [ [] ↦ [] | _ ∷ _ ↦ codes ", " ]) (comma_plain rows)
          ∙ omega (arith, h, e, full, length-append vars v))
        k

  pub generate-Fits : (args : Arguments V) → IsBound args → Fits (generate args).1
  unfolding generate _insert _select _limit _where _order_by _update _delete _count _values
      ℕ_discrete
  generate-Fits (insert t fs) h = _insert-Fits V t fs h.0 h.1
  generate-Fits (select t fs) h = _select-Fits V t fs h.0 h.1
  generate-Fits (values rows) (n, h) =
      write_rows-Fits n [] (codes "VALUES ") [] rows (inl refl) refl h
  generate-Fits (limit v) h = refl
  generate-Fits (where_desc desc vars) h = marks-plain (codes "WHERE ") desc refl ∙ h
  generate-Fits (order_by order) h = marks-plain (codes "ORDER BY ") order refl ∙ h
  generate-Fits (delete_from t) h = marks-plain (codes "DELETE FROM ") t refl ∙ h
  generate-Fits (count_of t) h = _select-Fits V t (codes "count(*)" ∷ []) h (refl, tt)
  generate-Fits (update t m) (p, h) =
      marks-plain (codes "UPDATE ") _ refl
      ∙ (marks-plain t _ p
          ∙ (marks-plain (codes " SET ") _ refl
              ∙ (marks-join (codes ", ") (map (λ (k, v). k ++ codes " = ?") m) refl
                  ∙ total-assignments m h)))
