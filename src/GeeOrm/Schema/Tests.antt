-- ===== src/GeeOrm/Schema/Tests.antt =====
-- The struct of schema_test.go, and inputs for the theorem.
use days_golang_master.Base.{
  ◌≡◌, refl, codes, none, some, List, [], ◌∷◌, done, true, false, text_discrete, ℕ_discrete,
}
use days_golang_master.Base.Table
use days_golang_master.GeeOrm.Schema.{
  Schema, StructField, string_kind, int_kind, struct_kind, data_type_of, parse, parse_from,
  field_of,
}
use days_golang_master.GeeOrm.Schema.Parsed.{IsTable, IsTyped, parse-IsTable}

-- Name with a tag, Age, and a field that is not exported, whose type does not matter.
abbrev user : List StructField
user =
    record {
      name = codes "Name";
      is_anonymous = false;
      is_exported = true;
      kind = string_kind;
      tag = some (codes "PRIMARY KEY");
    }
    ∷ record {
      name = codes "Age";
      is_anonymous = false;
      is_exported = true;
      kind = int_kind;
      tag = none;
    }
    ∷ record {
      name = codes "hidden";
      is_anonymous = false;
      is_exported = false;
      kind = struct_kind;
      tag = none;
    }
    ∷ []

parses_user :
    parse (codes "User") none user
    ≡ done (record {
      name = codes "User";
      fields =
          record { name = codes "Name"; data_type = codes "text"; tag = codes "PRIMARY KEY" }
          ∷ record { name = codes "Age"; data_type = codes "integer"; tag = [] }
          ∷ [];
      field_names = codes "Name" ∷ codes "Age" ∷ [];
      field_map =
          (
            codes "Name",
            record { name = codes "Name"; data_type = codes "text"; tag = codes "PRIMARY KEY" },
          )
          ∷ (codes "Age", record { name = codes "Age"; data_type = codes "integer"; tag = [] })
          ∷ [];
    })
unfolding parse parse_from field_of data_type_of Table.put text_discrete ℕ_discrete
parses_user = refl

user-IsTyped :
    (IsTyped (record {
      name = codes "Name";
      is_anonymous = false;
      is_exported = true;
      kind = string_kind;
      tag = some (codes "PRIMARY KEY");
    }))
    × (IsTyped (record {
      name = codes "Age";
      is_anonymous = false;
      is_exported = true;
      kind = int_kind;
      tag = none;
    })
        × (IsTyped (record {
          name = codes "hidden";
          is_anonymous = false;
          is_exported = false;
          kind = struct_kind;
          tag = none;
        })
            × Unit {0}))
unfolding data_type_of
user-IsTyped = (
  (λ e. (codes "text", refl)),
  ((λ e. (codes "integer", refl)), ((λ e. absurd (false_is e)), tt)),
)
  where
    false_is : false ≡ true → ⊥
    false_is e = cc

parse-IsTable_example :
    (schema : Schema) × (parse (codes "User") none user ≡ done schema)
    × IsTable schema
    × (schema.field_names ≡ codes "Name" ∷ codes "Age" ∷ [])
    × (schema.name ≡ codes "User")
parse-IsTable_example = parse-IsTable (codes "User") none user user-IsTyped
