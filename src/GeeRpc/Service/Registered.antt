-- ===== src/GeeRpc/Service/Registered.antt =====
-- Which methods gee-rpc/day7-registry/service.go registers.
use days_golang_master.Base.{
  ◌≡◌, ◌≢◌, ◌↔◌, refl, sym, ap, ◌∙◌, ◌⊎◌, inl, inr, Text, none, some, List, [], ◌∷◌, true, arith,
  text_discrete, if_pos, if_neg, Has, All, All-Has, none-ne-some, Bool-cases, Option-cases, subst,
}
use days_golang_master.Base.Table
use days_golang_master.Base.Table.{Table, get-put}
use days_golang_master.GeeRpc.Service.{
  GoType, Method, MethodType, method_type, is_error, error_type, is_exported, type_name, pkg_path,
  is_exported_or_builtin_type, register_from, register_methods,
}

-- A type with an exported name, or one that belongs to no package.
abbrev pub IsOpen : GoType → Type 0
IsOpen t = (is_exported (type_name t) ≡ true) ⊎ (pkg_path t ≡ [])

-- A receiver, two open types, and an error as the only result.
abbrev pub IsSuitable : Method → MethodType → Type 0
IsSuitable m mt =
    ((rcvr : GoType) × (m.inputs ≡ rcvr ∷ mt.arg_type ∷ mt.reply_type ∷ []))
    × (m.outputs ≡ error_type ∷ [])
    × IsOpen mt.arg_type
    × IsOpen mt.reply_type
    × (mt.num_calls ≡ 0)
    × (mt.method ≡ m.name)

IsOpen-of_true : (t : GoType) → is_exported_or_builtin_type t ≡ true → IsOpen t
unfolding is_exported_or_builtin_type
IsOpen-of_true t h = elim (Bool-cases (is_exported (type_name t))) [
  | inl e ↦ inl e
  | inr e ↦ elim (text_discrete (pkg_path t) []) [ yes p ↦ inr p | no p ↦ absurd (ground arith) ]
]

true-of_IsOpen : (t : GoType) → IsOpen t → is_exported_or_builtin_type t ≡ true
unfolding is_exported_or_builtin_type
true-of_IsOpen t (inl e) = ground arith
true-of_IsOpen t (inr e) = elim (Bool-cases (is_exported (type_name t))) [
  | inl p ↦ ground arith
  | inr p ↦ ground arith
]

abbrev no_method : {A : Type 0} (mt : MethodType) → none ≡ some mt → A
no_method mt e = absurd (none-ne-some e)

-- The tests of a method with three arguments and one result.
suits :
    (n : Text) (rcvr arg reply out : GoType) (mt : MethodType)
    → method_type (record { name = n; inputs = rcvr ∷ arg ∷ reply ∷ []; outputs = out ∷ [] })
      ≡ some mt
    → (is_error out ≡ true)
      × (is_exported_or_builtin_type arg ≡ true)
      × (is_exported_or_builtin_type reply ≡ true)
      × (record { method = n; arg_type = arg; reply_type = reply; num_calls = 0 } ≡ mt)
unfolding method_type
suits n rcvr arg reply out mt e = elim (Bool-cases (is_error out)) [
  | inr k ↦ absurd (ground arith)
  | inl k ↦ elim (Bool-cases (is_exported_or_builtin_type arg)) [
    | inr a ↦ absurd (ground arith)
    | inl a ↦ elim (Bool-cases (is_exported_or_builtin_type reply)) [
      | inr r ↦ absurd (ground arith)
      | inl r ↦ (k, a, r, ground arith)
    ]
  ]
]

is_error-eq : (t : GoType) → is_error t ≡ true → t ≡ error_type
is_error-eq error_type h = refl
is_error-eq (GoType.basic n) h = cc
is_error-eq GoType.struct_type h = cc
is_error-eq (GoType.pointer_to t) h = cc
is_error-eq (GoType.slice_of t) h = cc
is_error-eq (GoType.map_of k v) h = cc
is_error-eq (GoType.named n p t) h = cc

IsSuitable-of_some :
    (n : Text) (inputs outputs : List GoType) (mt : MethodType)
    → method_type (record { name = n; inputs = inputs; outputs = outputs }) ≡ some mt
    → IsSuitable (record { name = n; inputs = inputs; outputs = outputs }) mt
unfolding method_type
IsSuitable-of_some n [] os mt e = no_method mt e
IsSuitable-of_some n (a ∷ []) os mt e = no_method mt e
IsSuitable-of_some n (a ∷ b ∷ []) os mt e = no_method mt e
IsSuitable-of_some n (a ∷ b ∷ c ∷ d ∷ l) os mt e = no_method mt e
IsSuitable-of_some n (a ∷ b ∷ c ∷ []) [] mt e = no_method mt e
IsSuitable-of_some n (a ∷ b ∷ c ∷ []) (o ∷ p ∷ l) mt e = no_method mt e
IsSuitable-of_some n (a ∷ b ∷ c ∷ []) (o ∷ []) mt e =
    let (k, p, q, eq) = suits n a b c o mt e in
    subst (IsSuitable (record { name = n; inputs = a ∷ b ∷ c ∷ []; outputs = o ∷ [] })) eq (
      (a, refl),
      ap (λ t. t ∷ []) (is_error-eq o k),
      IsOpen-of_true b p,
      IsOpen-of_true c q,
      refl,
      refl,
    )

method_type-of_IsSuitable :
    (m : Method) (mt : MethodType) → IsSuitable m mt → method_type m ≡ some mt
unfolding method_type
method_type-of_IsSuitable m mt ((r, i), o, a, b, z, n) =
    ground (arith, true-of_IsOpen mt.arg_type a, true-of_IsOpen mt.reply_type b)

-- The names of the methods of a type are distinct.
abbrev pub IsDistinct : List Method → Type 0
IsDistinct [] = Unit
IsDistinct (m ∷ ms) = All (λ k. k.name ≢ m.name) ms × IsDistinct ms

module _ (m : Method) (ms : List Method) (t : Table Text MethodType) where
  register_skip : method_type m ≡ none → register_from (m ∷ ms) t ≡ register_from ms t
  unfolding register_from
  register_skip e = ground arith

  register_keep :
      (mt : MethodType)
      → method_type m ≡ some mt
      → register_from (m ∷ ms) t ≡ register_from ms (Table.put text_discrete m.name mt t)
  unfolding register_from
  register_keep mt e = ground arith

get-put_other :
    (n k : Text) (mt : MethodType) (t : Table Text MethodType)
    → k ≢ n
    → Table.get text_discrete n (Table.put text_discrete k mt t) ≡ Table.get text_discrete n t
get-put_other n k mt t h = rw (get-put text_discrete n k mt t) (rw (if_neg _ h) refl)

get-put_same :
    (n k : Text) (mt : MethodType) (t : Table Text MethodType)
    → k ≡ n
    → Table.get text_discrete n (Table.put text_discrete k mt t) ≡ some mt
get-put_same n k mt t h = rw (get-put text_discrete n k mt t) (rw (if_pos _ h) refl)

get-register_from_absent :
    (n : Text) (ms : List Method) (t : Table Text MethodType)
    → All (λ k. k.name ≢ n) ms
    → Table.get text_discrete n (register_from ms t) ≡ Table.get text_discrete n t
unfolding register_from
get-register_from_absent n [] t h = refl
get-register_from_absent n (m ∷ ms) t (d, h) = elim (Option-cases (method_type m)) [
  | inl e ↦
      ap (Table.get text_discrete n) (register_skip m ms t e) ∙ get-register_from_absent n ms t h
  | inr (mt, e) ↦
      ap (Table.get text_discrete n) (register_keep m ms t mt e)
      ∙ (get-register_from_absent n ms (Table.put text_discrete m.name mt t) h
          ∙ get-put_other n m.name mt t d)
]

get-register_from :
    (m : Method) (ms : List Method) (t : Table Text MethodType)
    → IsDistinct ms
    → Has m ms
    → Table.get text_discrete m.name t ≡ none
    → Table.get text_discrete m.name (register_from ms t) ≡ method_type m
unfolding register_from
get-register_from m [] t d h z = elim h [ ]
get-register_from m (k ∷ ms) t (d, ds) (inl e) z =
    subst (λ x. Table.get text_discrete x.name (register_from (k ∷ ms) t) ≡ method_type x) e
      (elim (Option-cases (method_type k)) [
        | inl p ↦
            ap (Table.get text_discrete k.name) (register_skip k ms t p)
            ∙ (get-register_from_absent k.name ms t d
                ∙ (subst (λ x. Table.get text_discrete x.name t ≡ none) (sym e) z ∙ sym p))
        | inr (mt, p) ↦
            ap (Table.get text_discrete k.name) (register_keep k ms t mt p)
            ∙ (get-register_from_absent k.name ms (Table.put text_discrete k.name mt t) d
                ∙ (get-put_same k.name k.name mt t refl ∙ sym p))
      ])
get-register_from m (k ∷ ms) t (d, ds) (inr h) z = elim (Option-cases (method_type k)) [
  | inl p ↦
      ap (Table.get text_discrete m.name) (register_skip k ms t p) ∙ get-register_from m ms t ds h z
  | inr (mt, p) ↦
      ap (Table.get text_discrete m.name) (register_keep k ms t mt p)
      ∙ get-register_from m ms (Table.put text_discrete k.name mt t) ds h (
          get-put_other m.name k.name mt t (λ e. All-Has (λ x. x.name ≢ k.name) m ms d h (sym e))
          ∙ z)
]

-- Of a receiver whose methods have distinct names, a method is in the map, with its own types and no
-- calls, exactly if it is suitable: it takes a receiver and two types that are exported or belong to
-- no package, and returns an error alone.
pub register_methods-IsSuitable :
    (ms : List Method) (m : Method) (mt : MethodType)
    → IsDistinct ms
    → Has m ms
    → (Table.get text_discrete m.name (register_methods ms) ≡ some mt) ↔ IsSuitable m mt
unfolding register_methods Table.get
register_methods-IsSuitable ms m mt d h = (
  λ e.
      IsSuitable-of_some m.name m.inputs m.outputs mt
        (sym (get-register_from m ms [] d h refl) ∙ e),
  λ s. get-register_from m ms [] d h refl ∙ method_type-of_IsSuitable m mt s,
)
