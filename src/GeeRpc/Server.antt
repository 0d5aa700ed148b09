-- ===== src/GeeRpc/Server.antt =====
-- gee-rpc/day7-registry/server.go: the services of a server, and how it reads the requests of a
-- connection. The goroutines that handle them are in Server/Handling.
--
-- What the connection carries are gob values of a type `V`: decoding one as a header or as an
-- argument is a parameter, which fails on a value of another shape. ReadHeader and ReadBody take
-- the next value off the connection whether it fits or not.
pub mod Lookup
pub mod Serving
pub mod Handling
mod Tests
use days_golang_master.Base.{
  ℕ, zero, suc, ◌+◌, Text, codes, Option, none, some, List, [], ◌∷◌, ◌++◌, Run, done, panic, spin,
  ◌>>=◌, take, drop, length, ite, ℕ_discrete, text_discrete, Bool, true, false,
}
use days_golang_master.Base.Table
use days_golang_master.Base.Table.{Table}
use days_golang_master.GeeRpc.Service.{
  Service, MethodType, Method, Argument, Reply, new_service, new_argv, new_replyv,
}

abbrev pub magic_number : ℕ
magic_number = 0x3bef5c

-- Option; the durations are in nanoseconds.
pub record Options : Type 0 where
  pub magic_number : ℕ
  pub codec_type : Text
  pub connect_timeout : ℕ
  pub handle_timeout : ℕ

abbrev pub gob_type : Text
gob_type = codes "application/gob"

abbrev pub default_option : Options
default_option = record {
  magic_number = magic_number;
  codec_type = gob_type;
  connect_timeout = 10000000000;
  handle_timeout = 0;
}

-- codec.Header
pub record Header : Type 0 where
  pub service_method : Text
  pub seq : ℕ
  pub error : Text

-- The map from names to services.
abbrev pub Server : Type 0
Server = Table Text Service

abbrev pub new_server : Server
new_server = []

-- Register: LoadOrStore keeps the service that is there; the second component is the error.
unfoldable pub register : Text → List Method → Server → Run (Server × Option Text)
register name ms server = do
  s ← new_service name ms
  done (elim (Table.get text_discrete name server) [
    | some _ ↦ (server, some (codes "rpc: service already defined: " ++ name))
    | none ↦ (Table.put text_discrete name s server, none)
  ])

-- strings.LastIndex for one byte
unfoldable pub last_index : ℕ → Text → Option ℕ
last_index b [] = none
last_index b (c ∷ s) = elim (last_index b s) [
  | some i ↦ some (suc i)
  | none ↦ ite (ℕ_discrete c b) (some 0) none
]

pub data Found : Type 0 where
  found : Service → MethodType → Found
  ill_formed no_service no_method : Text → Found

unfoldable pub find_service : Text → Server → Found
find_service service_method server = elim (last_index b'.' service_method) [
  | none ↦ ill_formed service_method
  | some dot ↦
      let service_name : Text = take dot service_method in
      let method_name : Text = drop (suc dot) service_method in
      elim (Table.get text_discrete service_name server) [
        | none ↦ no_service service_name
        | some svc ↦ elim (Table.get text_discrete method_name svc.method) [
          | none ↦ no_method method_name
          | some mtype ↦ found svc mtype
        ]
      ]
]

-- The error of findService.
abbrev pub find_error : Found → Text
find_error (found svc mtype) = []
find_error (ill_formed s) = codes "rpc server: service/method request ill-formed: " ++ s
find_error (no_service s) = codes "rpc server: can't find service " ++ s
find_error (no_method s) = codes "rpc server: can't find method " ++ s

pub record Call (V : Type 0) : Type 0 where
  pub header : Header
  pub svc : Service
  pub mtype : MethodType
  pub argv : V
  pub replyv : Reply

-- readRequest: no request, a request with an error, or a request; the values that are left.
pub data Request (V : Type 0) : Type 0 where
  no_request : Request V
  bad : Header → Text → List V → Request V
  good : Call V → List V → Request V

-- The error of the decoder, whose text the model leaves out.
abbrev pub body_error : Text
body_error = codes "read body err"

-- What the loop of serveCodec does in one round: it answers with an error, or starts the goroutine of
-- handleRequest, which answers later, in no order with the others.
pub data Served (V : Type 0) : Type 0 where
  rejected : Header → Served V
  started : Call V → ℕ → Served V

module _ {V : Type 0} (as_header : V → Option Header) (as_argument : Argument → V → Option V) where
  unfoldable pub read_body : Header → Service → MethodType → Reply → List V → Request V
  read_body h svc mtype reply [] = bad h body_error []
  read_body h svc mtype reply (v ∷ vs) = elim (as_argument (new_argv mtype) v) [
    | none ↦ bad h body_error vs
    | some a ↦ good (record { header = h; svc = svc; mtype = mtype; argv = a; replyv = reply }) vs
  ]

  unfoldable pub read_request_header : List V → Option (Header × List V)
  read_request_header [] = none
  read_request_header (v ∷ vs) = elim (as_header v) [ none ↦ none | some h ↦ some (h, vs) ]

  unfoldable pub read_request : Server → List V → Run (Request V)
  read_request server vs = elim (read_request_header vs) [
    | none ↦ done no_request
    | some (h, rest) ↦ elim (find_service h.service_method server) [
      | found svc mtype ↦ do reply ← new_replyv mtype; done (read_body h svc mtype reply rest)
      | ill_formed s ↦ done (bad h (find_error (ill_formed s)) rest)
      | no_service s ↦ done (bad h (find_error (no_service s)) rest)
      | no_method s ↦ done (bad h (find_error (no_method s)) rest)
    ]
  ]

  -- The loop, with the rounds that it is given.
  unfoldable pub serve_loop : ℕ → Server → ℕ → List V → Run (List (Served V))
  serve_loop zero server timeout vs = spin
  serve_loop (suc rounds) server timeout vs = read_request server vs >>= (λ req. elim req [
    | no_request ↦ done []
    | bad h e rest ↦
        serve_loop rounds server timeout rest
        >>= (λ out. done (rejected (record h { error = e }) ∷ out))
    | good c rest ↦
        serve_loop rounds server timeout rest >>= (λ out. done (started c timeout ∷ out))
  ])

  -- serveCodec: each round takes a value off the connection.
  unfoldable pub serve_codec : Server → Options → List V → Run (List (Served V))
  serve_codec server opt vs = serve_loop (suc (length vs)) server opt.handle_timeout vs

  -- ServeConn, with the options that were decoded, and whether NewCodecFuncMap has the codec.
  unfoldable pub serve_conn :
      (Text → Bool) → Server → Option Options → List V → Run (List (Served V))
  serve_conn has_codec server decoded vs = elim decoded [
    | none ↦ done []
    | some opt ↦
        ite (ℕ_discrete opt.magic_number magic_number)
          (elim (has_codec opt.codec_type) [ true ↦ serve_codec server opt vs | false ↦ done [] ])
          (done [])
  ]
