-- ===== src/GeeRpc/Server/Lookup.antt =====
-- What gee-rpc/day7-registry/server.go finds of what was registered.
use days_golang_master.Base.{
  ℕ, suc, ◌≡◌, ◌≢◌, refl, ap, ◌∙◌, Text, none, some, List, [], ◌∷◌, ◌++◌, done, arith, length, take,
  drop, All, Has, if_pos, text_discrete, Option-cases, Bool-cases, inl, inr, subst,
}
use days_golang_master.Base.Table
use days_golang_master.Base.Table.{Table, get-put}
use days_golang_master.GeeRpc.Service.{
  Service, MethodType, Method, new_service, register_methods, is_exported,
}
use days_golang_master.GeeRpc.Service.Registered.{
  IsSuitable, IsDistinct, register_methods-IsSuitable,
}
use days_golang_master.GeeRpc.Server.{Server, register, last_index, found, find_service}

last_index-none : (b : ℕ) (s : Text) → All (λ c. c ≢ b) s → last_index b s ≡ none
unfolding last_index
last_index-none b [] h = refl
last_index-none b (c ∷ s) (n, h) = ground (arith, last_index-none b s h)

-- The last index is where the text without the byte begins.
last_index-append :
    (b : ℕ) (s t : Text) → All (λ c. c ≢ b) t → last_index b (s ++ b ∷ t) ≡ some (length s)
unfolding last_index
last_index-append b [] t h = ground (arith, last_index-none b t h)
last_index-append b (c ∷ s) t h = ground (arith, last_index-append b s t h)

take-length-append : (s t : Text) → take (length s) (s ++ t) ≡ s
take-length-append [] t = refl
take-length-append (c ∷ s) t = ap (◌∷◌ c) (take-length-append s t)

drop-length-append : (s t : Text) (c : ℕ) → drop (suc (length s)) (s ++ c ∷ t) ≡ t
drop-length-append [] t c = refl
drop-length-append (d ∷ s) t c = drop-length-append s t c

-- A service and a method without a dot are found by their names.
find_service-found :
    (name meth : Text) (server : Server) (svc : Service) (mtype : MethodType)
    → All (λ c. c ≢ b'.') meth
    → Table.get text_discrete name server ≡ some svc
    → Table.get text_discrete meth svc.method ≡ some mtype
    → find_service (name ++ b'.' ∷ meth) server ≡ found svc mtype
unfolding find_service
find_service-found name meth server svc mtype h e k = ground (
  arith,
  last_index-append b'.' name meth h,
  take-length-append name (b'.' ∷ meth),
  drop-length-append name meth b'.',
)

-- What a Register that returns no error leaves in the map.
register_new :
    (name : Text) (ms : List Method) (server server' : Server)
    → register name ms server ≡ done (server', none)
    → Table.get text_discrete name server'
      ≡ some (record { name = name; method = register_methods ms })
unfolding register new_service
register_new name ms server server' h = elim (Bool-cases (is_exported name)) [
  | inr e ↦ absurd (ground arith)
  | inl e ↦ elim (Option-cases (Table.get text_discrete name server)) [
    | inr (s, g) ↦ absurd (ground arith)
    | inl g ↦
        let svc : Service = record { name = name; method = register_methods ms } in
        let eq : Table.put text_discrete name svc server ≡ server' = ground arith in
        subst (λ t. Table.get text_discrete name t ≡ some svc) eq
          (get-put text_discrete name name svc server ∙ rw (if_pos _ refl) refl)
  ]
]

-- Once a receiver is registered, its suitable methods are found by their full names.
pub find_service-register :
    (name : Text) (ms : List Method) (server server' : Server) (m : Method) (mt : MethodType)
    → register name ms server ≡ done (server', none)
    → IsDistinct ms
    → Has m ms
    → IsSuitable m mt
    → All (λ c. c ≢ b'.') m.name
    → find_service (name ++ b'.' ∷ m.name) server'
      ≡ found (record { name = name; method = register_methods ms }) mt
find_service-register name ms server server' m mt h d k s dots =
    find_service-found name m.name server' _ mt dots (register_new name ms server server' h)
      ((register_methods-IsSuitable ms m mt d k).1 s)
