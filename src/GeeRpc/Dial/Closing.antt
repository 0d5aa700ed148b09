-- ===== src/GeeRpc/Dial/Closing.antt =====
-- Which connections of gee-rpc/day7-registry/client.go stay open, and where an address leads.
use days_golang_master.Base.{
  ℕ, ◌≡◌, ◌≢◌, ◌↔◌, refl, sym, ap, ◌∙◌, ◌⊎◌, inl, inr, Text, codes, Option, none, some, List, ◌∷◌,
  ◌++◌, All, ite, text_discrete, ℕ_discrete, Bool, true, false, arith, Option-cases, Bool-cases,
  subst,
}
use days_golang_master.Base.Splitting.{split-append, split-last}
use days_golang_master.GeeRpc.Server.{Options}
use days_golang_master.GeeRpc.Dial.{
  DialError, timed_out, bad_status, connect_failed, Made, Parsed, parsed, not_parsed, parse_options,
  new_client, Response, status, no_response, connected, new_http_client, Dialled, dial_timeout,
  unconnected, connection, close_on_error, dial, dial_http, by_dial_http, by_dial, x_dial,
  target_of,
}

-- An address `protocol@addr` is dialled over its protocol, and over HTTP on tcp if that is http.
pub x_dial-join :
    (protocol addr : Text)
    → All (λ b. b ≢ b'@') protocol
    → All (λ b. b ≢ b'@') addr
    → x_dial (protocol ++ b'@' ∷ addr)
      ≡ ite
          (text_discrete protocol (codes "http"))
          (by_dial_http (codes "tcp") addr)
          (by_dial protocol addr)
unfolding x_dial
x_dial-join protocol addr h k =
    ap (target_of (protocol ++ b'@' ∷ addr))
      (split-append b'@' protocol addr h ∙ ap (◌∷◌ protocol) (split-last b'@' addr k))

-- A client that is made is on an open connection.
abbrev IsOpen : Made → Type 0
IsOpen m = m.error ≡ none → m.closed ≡ false

new_client-IsOpen :
    (has_codec : Text → Bool) (encoded : Option ℕ) (opt : Options)
    → IsOpen (new_client has_codec encoded opt)
unfolding new_client
new_client-IsOpen has_codec encoded opt = elim (Bool-cases (has_codec opt.codec_type)) [
  | inr c ↦ λ _. ground arith
  | inl c ↦ elim (Option-cases encoded) [
    | inl e ↦ λ _. ground arith
    | inr (x, e) ↦ λ k. absurd (ground arith)
  ]
]

ite-IsOpen : {P : Type 0} (d : Dec P) (a b : Made) → IsOpen a → IsOpen b → IsOpen (ite d a b)
ite-IsOpen (yes p) a b h k = h
ite-IsOpen (no p) a b h k = k

new_http_client-IsOpen :
    (resp : Response) (has_codec : Text → Bool) (encoded : Option ℕ) (opt : Options)
    → IsOpen (new_http_client resp has_codec encoded opt)
unfolding new_http_client
new_http_client-IsOpen (status s) has_codec encoded opt =
    ite-IsOpen (text_discrete s connected) _ (record { error = some bad_status; closed = false })
      (new_client-IsOpen has_codec encoded opt) (λ _. refl)
new_http_client-IsOpen (no_response e) has_codec encoded opt = λ _. refl

close_on_error-closes :
    (m : Made) → IsOpen m → ((close_on_error m).closed ≡ true) ↔ ((close_on_error m).error ≢ none)
close_on_error-closes m h = elim (Option-cases m.error) [
  | inl e ↦ (λ c. absurd (ground (arith, h e)), λ n. absurd (ground arith))
  | inr (x, e) ↦ (λ c k. ground arith, λ n. ground arith)
]

-- What dialTimeout does: without a connection it returns the error of the options or of the network;
-- with one, it has closed it exactly if it returns an error.
pub data Closes (opts : List (Option Options)) (conn : Option ℕ) : Dialled → Type 0 where
  bad_options :
      (e : DialError) → parse_options opts ≡ not_parsed e → Closes opts conn (unconnected e)
  no_connection :
      (opt : Options) (e : ℕ)
      → parse_options opts ≡ parsed opt
      → conn ≡ some e
      → Closes opts conn (unconnected (connect_failed e))
  on_connection :
      (opt : Options) (m : Made)
      → parse_options opts ≡ parsed opt
      → conn ≡ none
      → (m.closed ≡ true) ↔ (m.error ≢ none)
      → Closes opts conn (connection m)

Parsed-cases :
    (p : Parsed) → ((e : DialError) × (p ≡ not_parsed e)) ⊎ ((opt : Options) × (p ≡ parsed opt))
Parsed-cases (not_parsed e) = inl (e, refl)
Parsed-cases (parsed opt) = inr (opt, refl)

module _ (f : Options → Made) (opens : (opt : Options) → IsOpen (f opt)) (in_time : Bool)
    (opts : List (Option Options)) where
  -- The client that is waited for, or the error of the timeout.
  abbrev made_in_time : Options → Made
  made_in_time opt =
      ite (ℕ_discrete opt.connect_timeout 0) (f opt)
        (elim in_time [ true ↦ f opt | false ↦ record { error = some timed_out; closed = false } ])

  made_in_time-IsOpen : (opt : Options) → IsOpen (made_in_time opt)
  made_in_time-IsOpen opt =
      ite-IsOpen (ℕ_discrete opt.connect_timeout 0) (f opt) _ (opens opt) (waited in_time)
    where
      waited :
          (b : Bool)
          → IsOpen
              (elim b [ true ↦ f opt | false ↦ record { error = some timed_out; closed = false } ])
      waited true = opens opt
      waited false = λ _. refl

  dial_timeout-connected :
      (opt : Options)
      → parse_options opts ≡ parsed opt
      → dial_timeout f none in_time opts ≡ connection (close_on_error (made_in_time opt))
  unfolding dial_timeout
  dial_timeout-connected opt e = rw (e, dial_timeout) refl

  dial_timeout-unconnected :
      (opt : Options) (e : ℕ)
      → parse_options opts ≡ parsed opt
      → dial_timeout f (some e) in_time opts ≡ unconnected (connect_failed e)
  unfolding dial_timeout
  dial_timeout-unconnected opt e k = rw (k, dial_timeout) refl

  dial_timeout-refused :
      (conn : Option ℕ) (e : DialError)
      → parse_options opts ≡ not_parsed e
      → dial_timeout f conn in_time opts ≡ unconnected e
  unfolding dial_timeout
  dial_timeout-refused conn e k = rw (k, dial_timeout) refl

  dial_timeout-Closes : (conn : Option ℕ) → Closes opts conn (dial_timeout f conn in_time opts)
  dial_timeout-Closes conn = elim (Parsed-cases (parse_options opts)) [
    | inl (e, k) ↦ subst (Closes opts conn) (sym (dial_timeout-refused conn e k)) (bad_options e k)
    | inr (opt, k) ↦ connects opt k conn
  ]
    where
      connects :
          (opt : Options)
          → parse_options opts ≡ parsed opt
          → (conn : Option ℕ) → Closes opts conn (dial_timeout f conn in_time opts)
      connects opt k (some e) =
          subst (Closes opts (some e)) (sym (dial_timeout-unconnected opt e k))
            (no_connection opt e k refl)
      connects opt k none = subst (Closes opts none) (sym (dial_timeout-connected opt k)) (
          on_connection opt (close_on_error (made_in_time opt)) k refl
            (close_on_error-closes (made_in_time opt) (made_in_time-IsOpen opt)))

-- Dial and DialHTTP return the error of the options, or that of the network, if there is no connection
-- then; and a connection that they opened they have closed exactly if they return an error, whether
-- that comes from the handshake over HTTP, the codec, the encoding of the options, or the clock.
pub dial-Closes :
    (resp : Response) (has_codec : Text → Bool) (encoded conn : Option ℕ) (in_time : Bool)
    (opts : List (Option Options))
    → Closes opts conn (dial has_codec encoded conn in_time opts)
      × Closes opts conn (dial_http resp has_codec encoded conn in_time opts)
unfolding dial dial_http
dial-Closes resp has_codec encoded conn in_time opts = (
  dial_timeout-Closes (new_client has_codec encoded) (new_client-IsOpen has_codec encoded) in_time
      opts conn,
  dial_timeout-Closes (new_http_client resp has_codec encoded)
      (new_http_client-IsOpen resp has_codec encoded) in_time opts conn,
)
