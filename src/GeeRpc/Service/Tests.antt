-- ===== src/GeeRpc/Service/Tests.antt =====
-- The receiver Foo of service_test.go, and inputs for the theorems.
use days_golang_master.Base.{◌≡◌, refl, codes, [], ◌∷◌, done, text_discrete, dec_le}
use days_golang_master.Base.Table
use days_golang_master.GeeRpc.Service.{
  basic, method_type, type_name, pkg_path, is_exported, is_exported_or_builtin_type, register_from,
  register_methods, zero_of, new_replyv, elem_type, underlying,
}
use days_golang_master.GeeRpc.Service.Sample.{methods, sum_type}

registers_sum : register_methods methods ≡ (codes "Sum", sum_type) ∷ []
unfolding register_methods register_from method_type is_exported_or_builtin_type is_exported
    type_name pkg_path Table.put text_discrete dec_le
registers_sum = refl

makes_reply : new_replyv sum_type ≡ done (zero_of (basic (codes "int")))
unfolding new_replyv elem_type underlying
makes_reply = refl
