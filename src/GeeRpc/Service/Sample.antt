-- ===== src/GeeRpc/Service/Sample.antt =====
-- The receiver Foo of gee-rpc/day7-registry/service_test.go.
use days_golang_master.Base.{refl, inl, inr, codes, List, [], ◌∷◌, dec_le}
use days_golang_master.GeeRpc.Service.{
  GoType, basic, error_type, struct_type, pointer_to, named, Method, MethodType, type_name,
  pkg_path, is_exported,
}
use days_golang_master.GeeRpc.Service.Registered.{IsSuitable}

abbrev pub foo : GoType
foo = named (codes "Foo") (codes "geerpc") struct_type

abbrev pub args : GoType
args = named (codes "Args") (codes "geerpc") struct_type

abbrev pub sum_method : Method
sum_method = record {
  name = codes "Sum";
  inputs = foo ∷ args ∷ pointer_to (basic (codes "int")) ∷ [];
  outputs = error_type ∷ [];
}

-- A method with one argument too few.
abbrev pub reset_method : Method
reset_method = record { name = codes "Reset"; inputs = foo ∷ args ∷ []; outputs = error_type ∷ [] }

abbrev pub methods : List Method
methods = reset_method ∷ sum_method ∷ []

abbrev pub sum_type : MethodType
sum_type = record {
  method = codes "Sum";
  arg_type = args;
  reply_type = pointer_to (basic (codes "int"));
  num_calls = 0;
}

pub sum-IsSuitable : IsSuitable sum_method sum_type
unfolding is_exported type_name dec_le pkg_path
sum-IsSuitable = ((foo, refl), refl, inl refl, inr refl, refl, refl)
