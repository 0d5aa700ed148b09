-- ===== src/GeeRpc/Server/Tests.antt =====
-- The server on a connection of concrete values, and inputs for the theorems.
use days_golang_master.Base.{
  ℕ, ◌≡◌, ◌≢◌, ◌⊎◌, refl, ap, inl, inr, Text, codes, Option, some, none, [], ◌∷◌, ◌++◌, done,
  text_discrete, dec_le, ℕ_discrete, arith,
}
use days_golang_master.Base.Table
use days_golang_master.GeeRpc.Service.{
  basic, Argument, Service, method_type, register_from, register_methods, new_service, is_exported,
  zero_of, new_replyv, elem_type, underlying, type_name, pkg_path, is_exported_or_builtin_type,
}
use days_golang_master.GeeRpc.Service.Sample.{methods, sum_method, sum_type, sum-IsSuitable}
use days_golang_master.GeeRpc.Server.{
  Server, Header, default_option, found, no_service, register, find_service, find_error, last_index,
  started, rejected, serve_codec, Call,
}
use days_golang_master.GeeRpc.Server.Lookup.{find_service-register}
use days_golang_master.GeeRpc.Server.Serving.{
  none_left, fitting, serve_codec-Requests, serve_codec-missing,
}
use days_golang_master.GeeRpc.Server.Handling.{
  State, start, Steps, here, then, method_returns, time_is_over, waiter_answers, returned, finished,
  result, timeout_error, called,
}
use days_golang_master.GeeRpc.Server.Handling.Once.{handle-answers_once}

-- The service Foo with its one method.
abbrev foo_service : Service
foo_service = record { name = codes "Foo"; method = (codes "Sum", sum_type) ∷ [] }

abbrev server : Server
server = (codes "Foo", foo_service) ∷ []

registers_foo : register (codes "Foo") methods [] ≡ done (server, none)
unfolding register new_service register_methods register_from method_type
    is_exported_or_builtin_type is_exported type_name pkg_path Table.get Table.put text_discrete
    dec_le
registers_foo = refl

find_service-register_example :
    find_service (codes "Foo" ++ b'.' ∷ codes "Sum") server
    ≡ found (record { name = codes "Foo"; method = register_methods methods }) sum_type
unfolding ℕ_discrete
find_service-register_example =
    find_service-register (codes "Foo") methods [] server sum_method sum_type registers_foo
      (((λ e. cc), tt), (tt, tt)) (inr (inl refl)) sum-IsSuitable
      (
        (λ e. absurd (omega arith)),
        ((λ e. absurd (omega arith)), ((λ e. absurd (omega arith)), tt)),
      )

-- A value is a header, or a number.
data Value : Type 0 where
  head : Header → Value
  number : ℕ → Value

abbrev as_header : Value → Option Header
as_header (head h) = some h
as_header (number n) = none

abbrev as_argument : Argument → Value → Option Value
as_argument t (head h) = none
as_argument t (number n) = some (number n)

abbrev sum_header : Header
sum_header = record { service_method = codes "Foo.Sum"; seq = 1; error = [] }

abbrev lost_header : Header
lost_header = record { service_method = codes "Bar.Sum"; seq = 2; error = [] }

finds_sum : find_service (codes "Foo.Sum") server ≡ found foo_service sum_type
unfolding find_service last_index Table.get text_discrete ℕ_discrete
finds_sum = refl

misses_bar : find_service (codes "Bar.Sum") server ≡ no_service (codes "Bar")
unfolding find_service last_index Table.get text_discrete ℕ_discrete
misses_bar = refl

makes_reply : new_replyv sum_type ≡ done (zero_of (basic (codes "int")))
unfolding new_replyv elem_type underlying
makes_reply = refl

abbrev sum_call : Call Value
sum_call = record {
  header = sum_header;
  svc = foo_service;
  mtype = sum_type;
  argv = number 5;
  replyv = zero_of (basic (codes "int"));
}

serve_codec-Requests_example :
    serve_codec as_header as_argument server default_option (head sum_header ∷ number 5 ∷ [])
    ≡ done (started sum_call 0 ∷ [])
serve_codec-Requests_example =
    serve_codec-Requests as_header as_argument server default_option
      (head sum_header ∷ number 5 ∷ []) (started sum_call 0 ∷ [])
      (fitting (head sum_header) (number 5) (number 5) sum_header foo_service sum_type
        (zero_of (basic (codes "int"))) [] [] refl finds_sum makes_reply refl none_left)

-- A request for the unknown service Bar, and then one for Foo that stays unanswered.
serve_codec-missing_example :
    serve_codec as_header as_argument server default_option
      (head lost_header ∷ number 5 ∷ head sum_header ∷ number 5 ∷ [])
    ≡ done
        (rejected (record lost_header { error = codes "rpc server: can't find service Bar" }) ∷ [])
serve_codec-missing_example =
    serve_codec-missing as_header as_argument server default_option (head lost_header) (number 5)
      lost_header (codes "rpc server: can't find service Bar") (head sum_header ∷ number 5 ∷ [])
      refl ((codes "Bar", inr (inl misses_bar)), ap find_error misses_bar) refl

-- The method returns, and the time is over before it is seen.
abbrev timed_out_run :
    Steps 7 start
      (record { worker = called none; waiter = returned; responses = timeout_error ∷ [] })
timed_out_run =
    then
      (then (then here (method_returns none refl)) (time_is_over (λ e. absurd (omega arith)) refl))
      (waiter_answers refl)

handle-answers_once_example :
    (((err : Option Text) × (timeout_error ∷ [] ≡ result err ∷ [])) × (called none ≡ finished))
    ⊎ ((timeout_error ∷ [] ≡ timeout_error ∷ [])
        × ((t : State)
            → Steps 7
                (record { worker = called none; waiter = returned; responses = timeout_error ∷ [] })
                t
            → t.worker ≢ finished))
handle-answers_once_example =
    handle-answers_once 7
      (record { worker = called none; waiter = returned; responses = timeout_error ∷ [] })
      timed_out_run refl
