-- ===== src/GeeRpc/Service.antt =====
-- gee-rpc/day7-registry/service.go: the methods of a receiver that a server offers, and the argument
-- and reply that it makes for a call.
--
-- What reflection tells of the receiver is data here: its name and its methods with their types. A
-- name is exported if it starts with an upper-case ASCII letter.
pub mod Registered
pub mod Sample
mod Tests
use days_golang_master.Base.{
  ℕ, suc, Text, codes, Option, none, some, List, [], ◌∷◌, Run, done, panic, spin, ◌>>=◌, Bool, true,
  false, ◌&&◌, ◌||◌, not, if◌then◌else◌, ite, dec_le, text_discrete, add64,
}
use days_golang_master.Base.Table
use days_golang_master.Base.Table.{Table}

-- reflect.Type: `basic` are the types of the universe scope, `named` those of a package.
pub data GoType : Type 0 where
  basic : Text → GoType
  error_type struct_type : GoType
  pointer_to slice_of : GoType → GoType
  map_of : GoType → GoType → GoType
  named : Text → Text → GoType → GoType

unfoldable pub type_name : GoType → Text
type_name (basic n) = n
type_name error_type = codes "error"
type_name struct_type = []
type_name (pointer_to t) = []
type_name (slice_of t) = []
type_name (map_of k v) = []
type_name (named n p t) = n

unfoldable pub pkg_path : GoType → Text
pkg_path (named n p t) = p
pkg_path _ = []

-- The type without its name, which decides its kind.
unfoldable pub underlying : GoType → GoType
underlying (named n p t) = underlying t
underlying t = t

-- t.Elem(), which panics on other kinds.
abbrev pub elem_of : GoType → Run GoType
elem_of (pointer_to t) = done t
elem_of (slice_of t) = done t
elem_of (map_of k v) = done v
elem_of _ = panic

unfoldable pub elem_type : GoType → Run GoType
elem_type t = elem_of (underlying t)

-- ast.IsExported
unfoldable pub is_exported : Text → Bool
is_exported [] = false
is_exported (b ∷ s) = ite (dec_le b'A' b) (ite (dec_le b b'Z') true false) false

unfoldable pub is_exported_or_builtin_type : GoType → Bool
is_exported_or_builtin_type t =
    is_exported (type_name t) || ite (text_discrete (pkg_path t) []) true false

-- reflect.Method
pub record Method : Type 0 where
  pub name : Text
  pub inputs : List GoType
  pub outputs : List GoType

pub record MethodType : Type 0 where
  pub method : Text
  pub arg_type : GoType
  pub reply_type : GoType
  pub num_calls : ℕ

pub record Service : Type 0 where
  pub name : Text
  pub method : Table Text MethodType

abbrev pub is_error : GoType → Bool
is_error error_type = true
is_error _ = false

-- The tests of registerMethods, in their order.
unfoldable pub method_type : Method → Option MethodType
method_type m = elim m.inputs [
  | rcvr ∷ arg ∷ reply ∷ [] ↦ elim m.outputs [
    | out ∷ [] ↦
        if is_error out
        then (if not (is_exported_or_builtin_type arg) || not (is_exported_or_builtin_type reply)
            then none
            else some
                (record { method = m.name; arg_type = arg; reply_type = reply; num_calls = 0 }))
        else none
    | _ ↦ none
  ]
  | _ ↦ none
]

-- The loop of registerMethods, with the map so far.
unfoldable pub register_from : List Method → Table Text MethodType → Table Text MethodType
register_from [] t = t
register_from (m ∷ ms) t =
    let skip = register_from ms t in
    let keep = λ (mt : MethodType). register_from ms (Table.put text_discrete m.name mt t) in
    elim (method_type m) [ none ↦ skip | some mt ↦ keep mt ]

unfoldable pub register_methods : List Method → Table Text MethodType
register_methods ms = register_from ms []

-- newService: log.Fatalf ends the process, here a panic.
unfoldable pub new_service : Text → List Method → Run Service
new_service name ms =
    if is_exported name then done (record { name = name; method = register_methods ms }) else panic

-- reflect.New(t), or its element.
pub data Argument : Type 0 where
  new_pointer zero_value : GoType → Argument

unfoldable pub new_argv : MethodType → Argument
new_argv m = elim (underlying m.arg_type) [
  | pointer_to t ↦ new_pointer t
  | _ ↦ zero_value m.arg_type
]

-- A new reply points to a zero value; that of a map or a slice is made.
pub data Reply : Type 0 where
  zero_of made : GoType → Reply

unfoldable pub new_replyv : MethodType → Run Reply
new_replyv m = do
  t ← elem_type m.reply_type
  done (elim (underlying t) [ map_of _ _ ↦ made t | slice_of _ ↦ made t | _ ↦ zero_of t ])

-- call: the count goes up, and the error is the one that the function returns.
unfoldable pub call : {E : Type 0} → (Text → Option E) → MethodType → MethodType × Option E
call f m = (record m { num_calls = add64 m.num_calls 1 }, f m.method)

unfoldable pub get_num_calls : MethodType → ℕ
get_num_calls m = m.num_calls
