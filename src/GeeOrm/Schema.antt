-- ===== src/GeeOrm/Schema.antt =====
-- gee-orm/day7-migrate/schema/schema.go and dialect/sqlite3.go: the table that is made of a struct.
--
-- What reflection tells of a struct is a list of its fields. The values of a record are not part of
-- it.
mod Parsed
mod Tests
use days_golang_master.Base.{
  Text, codes, text_discrete, Option, none, some, List, [], ◌∷◌, ◌++◌, Run, done, panic, ◌>>=◌,
  Bool, true, false, if◌then◌else◌,
}
use days_golang_master.Base.Table
use days_golang_master.Base.Table.{Table}

-- reflect.Kind, with time.Time apart from the other structs.
pub data Kind : Type 0 where
  bool_kind int_kind int8_kind int16_kind int32_kind int64_kind : Kind
  uint_kind uint8_kind uint16_kind uint32_kind uint64_kind uintptr_kind : Kind
  float32_kind float64_kind string_kind array_kind slice_kind time_kind struct_kind other_kind :
      Kind

-- DataTypeOf
unfoldable pub data_type_of : Kind → Run Text
data_type_of bool_kind = done (codes "bool")
data_type_of int_kind = done (codes "integer")
data_type_of int8_kind = done (codes "integer")
data_type_of int16_kind = done (codes "integer")
data_type_of int32_kind = done (codes "integer")
data_type_of uint_kind = done (codes "integer")
data_type_of uint8_kind = done (codes "integer")
data_type_of uint16_kind = done (codes "integer")
data_type_of uint32_kind = done (codes "integer")
data_type_of uintptr_kind = done (codes "integer")
data_type_of int64_kind = done (codes "bigint")
data_type_of uint64_kind = done (codes "bigint")
data_type_of float32_kind = done (codes "real")
data_type_of float64_kind = done (codes "real")
data_type_of string_kind = done (codes "text")
data_type_of array_kind = done (codes "blob")
data_type_of slice_kind = done (codes "blob")
data_type_of time_kind = done (codes "datetime")
data_type_of struct_kind = panic
data_type_of other_kind = panic

-- TableExistSQL, whose argument is the name of the table.
abbrev pub table_exist_sql : Text
table_exist_sql = codes "SELECT name FROM sqlite_master WHERE type='table' and name = ?"

pub record Field : Type 0 where
  pub name : Text
  pub data_type : Text
  pub tag : Text

pub record Schema : Type 0 where
  pub name : Text
  pub fields : List Field
  pub field_names : List Text
  pub field_map : Table Text Field

unfoldable pub get_field : Text → Schema → Option Field
get_field name schema = Table.get text_discrete name schema.field_map

-- reflect.StructField, with the tag under the key geeorm.
pub record StructField : Type 0 where
  pub name : Text
  pub is_anonymous : Bool
  pub is_exported : Bool
  pub kind : Kind
  pub tag : Option Text

-- The field of Parse for a field of the struct.
unfoldable pub field_of : StructField → Run Field
field_of p = do
  data_type ← data_type_of p.kind
  done
      (record { name = p.name; data_type = data_type; tag = elim p.tag [ none ↦ [] | some v ↦ v ] })

abbrev pub is_column : StructField → Bool
is_column p = if p.is_anonymous then false else p.is_exported

-- The loop of Parse.
unfoldable pub parse_from : List StructField → Schema → Run Schema
parse_from [] schema = done schema
parse_from (p ∷ ps) schema = elim (is_column p) [
  | false ↦ parse_from ps schema
  | true ↦ do
    field ← field_of p
    parse_from ps (record schema {
      fields = schema.fields ++ (field ∷ []);
      field_names = schema.field_names ++ (p.name ∷ []);
      field_map = Table.put text_discrete p.name field schema.field_map;
    })
]

-- Parse; a struct may have a method TableName.
unfoldable pub parse : Text → Option Text → List StructField → Run Schema
parse type_name table_name ps = parse_from ps (record {
  name = elim table_name [ none ↦ type_name | some t ↦ t ];
  fields = [];
  field_names = [];
  field_map = [];
})
