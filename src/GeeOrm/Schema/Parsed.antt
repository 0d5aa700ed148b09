-- ===== src/GeeOrm/Schema/Parsed.antt =====
-- What Parse of gee-orm/day7-migrate/schema/schema.go makes of a struct.
use days_golang_master.Base.{
  ◌≡◌, refl, sym, ap, ◌∙◌, ◌⊎◌, inl, inr, Text, text_discrete, Option, none, some, List, [], ◌∷◌,
  ◌++◌, map, All, Has, Run, done, true, false, Bool-cases, if_pos, if_neg, arith, append-nil,
  append_assoc,
}
use days_golang_master.Base.Table
use days_golang_master.Base.Table.{Table}
use days_golang_master.GeeOrm.Schema.{
  Field, Schema, StructField, data_type_of, field_of, is_column, get_field, parse_from, parse,
}

-- The names of the fields that become columns, in their order.
abbrev pub column_names : List StructField → List Text
column_names [] = []
column_names (p ∷ ps) = elim (is_column p) [
  | true ↦ p.name ∷ column_names ps
  | false ↦ column_names ps
]

-- Every field that becomes a column has a type that the database has.
abbrev pub IsTyped : StructField → Type 0
IsTyped p = is_column p ≡ true → (t : Text) × (data_type_of p.kind ≡ done t)

-- The names are those of the fields, and each name has a field of this name.
pub record IsTable (schema : Schema) : Type 0 where
  pub named : schema.field_names ≡ map (λ f. f.name) schema.fields
  pub found :
      (n : Text)
      → Has n schema.field_names
      → (f : Field) × (get_field n schema ≡ some f) × (f.name ≡ n)

Has-append : (n x : Text) (l : List Text) → Has n (l ++ (x ∷ [])) → Has n l ⊎ (x ≡ n)
Has-append n x [] (inl e) = inr e
Has-append n x [] (inr h) = elim h [ ]
Has-append n x (y ∷ l) (inl e) = inl (inl e)
Has-append n x (y ∷ l) (inr h) = elim (Has-append n x l h) [ inl k ↦ inl (inr k) | inr e ↦ inr e ]

map-append_one :
    (fs : List Field) (f : Field)
    → map (λ g. g.name) (fs ++ (f ∷ [])) ≡ map (λ g. g.name) fs ++ (f.name ∷ [])
map-append_one [] f = refl
map-append_one (g ∷ fs) f = ap (λ l. g.name ∷ l) (map-append_one fs f)

-- A schema with one more field.
abbrev more : Schema → Field → Schema
more schema f = record schema {
  fields = schema.fields ++ (f ∷ []);
  field_names = schema.field_names ++ (f.name ∷ []);
  field_map = Table.put text_discrete f.name f schema.field_map;
}

more-IsTable : (schema : Schema) (f : Field) → IsTable schema → IsTable (more schema f)
unfolding get_field
more-IsTable schema f h = record {
  named = ap (λ l. l ++ (f.name ∷ [])) h.named ∙ sym (map-append_one schema.fields f);
  found = λ n k. elim (text_discrete f.name n) [
    | yes e ↦ (
      f,
      Table.get-put text_discrete n f.name f schema.field_map
          ∙ if_pos (text_discrete f.name n) e (some f) (Table.get text_discrete n schema.field_map),
      e,
    )
    | no e ↦ elim (Has-append n f.name schema.field_names k) [
      | inr q ↦ absurd (e q)
      | inl old ↦
          let (g, at', same) = h.found n old in
          (
            g,
            Table.get-put text_discrete n f.name f schema.field_map
                ∙ (if_neg (text_discrete f.name n) e (some f)
                      (Table.get text_discrete n schema.field_map)
                    ∙ at'),
            same,
          )
    ]
  ];
}

-- The field that Parse makes of a field of the struct with a type.
abbrev typed : StructField → Text → Field
typed p t = record { name = p.name; data_type = t; tag = elim p.tag [ none ↦ [] | some v ↦ v ] }

field_of-typed :
    (p : StructField) (t : Text) → data_type_of p.kind ≡ done t → field_of p ≡ done (typed p t)
unfolding field_of
field_of-typed p t e = rw e refl

parse_from-skips :
    (p : StructField) (ps : List StructField) (schema : Schema)
    → is_column p ≡ false
    → parse_from (p ∷ ps) schema ≡ parse_from ps schema
unfolding parse_from
parse_from-skips p ps schema e = ground (arith, e)

parse_from-takes :
    (p : StructField) (ps : List StructField) (schema : Schema) (f : Field)
    → is_column p ≡ true
    → field_of p ≡ done f
    → p.name ≡ f.name
    → parse_from (p ∷ ps) schema ≡ parse_from ps (more schema f)
unfolding parse_from
parse_from-takes p ps schema f e g same = ground (arith, e, g, same)

-- What the loop has made of a struct, behind what was there.
abbrev pub IsParsed : List StructField → Schema → Run Schema → Type 0
IsParsed ps schema r =
    (result : Schema) × (r ≡ done result)
    × IsTable result
    × (result.field_names ≡ schema.field_names ++ column_names ps)
    × (result.name ≡ schema.name)

parse_from-IsParsed :
    (ps : List StructField) (schema : Schema)
    → All IsTyped ps
    → IsTable schema
    → IsParsed ps schema (parse_from ps schema)
unfolding parse_from
parse_from-IsParsed [] schema h t = (schema, refl, t, sym (append-nil schema.field_names), refl)
parse_from-IsParsed (p ∷ ps) schema (k, h) t = elim (Bool-cases (is_column p)) [
  | inr e ↦
      let (r, run, t', names, name) = parse_from-IsParsed ps schema h t in
      (
        r,
        parse_from-skips p ps schema e ∙ run,
        t',
        names ∙ ap (λ l. schema.field_names ++ l) (ground (arith, e)),
        name,
      )
  | inl e ↦
      let (type, typed_as) = k e in
      let f = typed p type in
      let (r, run, t', names, name) =
        parse_from-IsParsed ps (more schema f) h (more-IsTable schema f t) in
      (
        r,
        parse_from-takes p ps schema f e (field_of-typed p type typed_as) refl ∙ run,
        t',
        names
            ∙ (append_assoc schema.field_names (p.name ∷ []) (column_names ps)
                ∙ ap (λ l. schema.field_names ++ l) (ground (arith, e))),
        name,
      )
]

-- If every field that becomes a column has a type that the database has, Parse makes a table: its name
-- is that of the method TableName, or else of the type; its columns are the exported fields that are
-- not embedded, in their order; and GetField finds a field of each column's name.
pub parse-IsTable :
    (type_name : Text) (table_name : Option Text) (ps : List StructField)
    → All IsTyped ps
    → (schema : Schema) × (parse type_name table_name ps ≡ done schema)
      × IsTable schema
      × (schema.field_names ≡ column_names ps)
      × (schema.name ≡ elim table_name [ none ↦ type_name | some t ↦ t ])
unfolding parse
parse-IsTable type_name table_name ps h =
    parse_from-IsParsed ps _ h (record { named = refl; found = λ n k. elim k [ ] })
