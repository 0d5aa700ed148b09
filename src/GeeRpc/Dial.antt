-- ===== src/GeeRpc/Dial.antt =====
-- gee-rpc/day7-registry/client.go: how a client is made, from the options to the handshake on a new
-- connection, and which connections are closed again.
--
-- What the network, the JSON encoder and the clock do is a parameter: the error of an attempt, the
-- status of a response, and whether the attempt ends within the timeout. A client stands for the
-- connection on which newClientCodec starts.
pub mod Closing
mod Tests
use days_golang_master.Base.{
  ℕ, zero, suc, Text, codes, Option, none, some, List, [], ◌∷◌, split, ite, text_discrete,
  ℕ_discrete, Bool, true, false,
}
use days_golang_master.GeeRpc.Server.{Options, default_option}

pub data DialError : Type 0 where
  many_options bad_codec bad_status timed_out bad_format : DialError
  encode_failed response_failed connect_failed : ℕ → DialError

pub data Parsed : Type 0 where
  parsed : Options → Parsed
  not_parsed : DialError → Parsed

-- parseOptions; a nil option is `none`.
unfoldable pub parse_options : List (Option Options) → Parsed
parse_options [] = parsed default_option
parse_options (none ∷ opts) = parsed default_option
parse_options (some opt ∷ []) = parsed (record opt {
  magic_number = default_option.magic_number;
  codec_type = ite (text_discrete opt.codec_type []) default_option.codec_type opt.codec_type;
})
parse_options (some opt ∷ _ ∷ opts) = not_parsed many_options

-- The pair (client, err), and whether the connection was closed.
pub record Made : Type 0 where
  pub error : Option DialError
  pub closed : Bool

-- NewClient; `has_codec` is NewCodecFuncMap, `encoded` the error of the JSON encoder.
unfoldable pub new_client : (Text → Bool) → Option ℕ → Options → Made
new_client has_codec encoded opt = elim (has_codec opt.codec_type) [
  | false ↦ record { error = some bad_codec; closed = false }
  | true ↦ elim encoded [
    | some e ↦ record { error = some (encode_failed e); closed = true }
    | none ↦ record { error = none; closed = false }
  ]
]

pub data Response : Type 0 where
  status : Text → Response
  no_response : ℕ → Response

abbrev pub connected : Text
connected = codes "200 Connected to Gee RPC"

-- NewHTTPClient; `resp` is what http.ReadResponse returns.
unfoldable pub new_http_client : Response → (Text → Bool) → Option ℕ → Options → Made
new_http_client resp has_codec encoded opt = elim resp [
  | status s ↦
      ite (text_discrete s connected) (new_client has_codec encoded opt)
        (record { error = some bad_status; closed = false })
  | no_response e ↦ record { error = some (response_failed e); closed = false }
]

-- What dialTimeout returns: no connection and an error, or a connection, which is open or closed, and
-- an error or the client on it.
pub data Dialled : Type 0 where
  unconnected : DialError → Dialled
  connection : Made → Dialled

-- The deferred function closes the connection if there is an error.
abbrev pub close_on_error : Made → Made
close_on_error m = elim m.error [ none ↦ m | some e ↦ record m { closed = true } ]

-- dialTimeout; `f` makes the client, `conn` is the error of net.DialTimeout, and `in_time` tells
-- whether the result of `f` comes before the timeout.
unfoldable pub dial_timeout : (Options → Made) → Option ℕ → Bool → List (Option Options) → Dialled
dial_timeout f conn in_time opts = elim (parse_options opts) [
  | not_parsed e ↦ unconnected e
  | parsed opt ↦ elim conn [
    | some e ↦ unconnected (connect_failed e)
    | none ↦ connection (
        close_on_error (
          ite (ℕ_discrete opt.connect_timeout 0) (f opt) (elim in_time [
            | true ↦ f opt
            | false ↦ record { error = some timed_out; closed = false }
          ])))
  ]
]

-- Dial and DialHTTP, which pass NewClient and NewHTTPClient to dialTimeout.
unfoldable pub dial : (Text → Bool) → Option ℕ → Option ℕ → Bool → List (Option Options) → Dialled
dial has_codec encoded conn in_time opts =
    dial_timeout (new_client has_codec encoded) conn in_time opts

unfoldable pub dial_http :
    Response → (Text → Bool) → Option ℕ → Option ℕ → Bool → List (Option Options) → Dialled
dial_http resp has_codec encoded conn in_time opts =
    dial_timeout (new_http_client resp has_codec encoded) conn in_time opts

-- The network and the address that are dialled, by DialHTTP or by Dial.
pub data Target : Type 0 where
  by_dial_http by_dial : Text → Text → Target
  malformed : Text → Target

-- The target of an address that is split at its `@`.
abbrev pub target_of : Text → List Text → Target
target_of rpc_addr (protocol ∷ addr ∷ []) =
    ite (text_discrete protocol (codes "http")) (by_dial_http (codes "tcp") addr)
      (by_dial protocol addr)
target_of rpc_addr _ = malformed rpc_addr

-- XDial
unfoldable pub x_dial : Text → Target
x_dial rpc_addr = target_of rpc_addr (split b'@' rpc_addr)
