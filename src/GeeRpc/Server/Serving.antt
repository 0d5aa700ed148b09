-- ===== src/GeeRpc/Server/Serving.antt =====
-- What the loop of serveCodec in gee-rpc/day7-registry/server.go does with the values of a connection.
use days_golang_master.Base.{
  ℕ, zero, suc, ◌<◌, ◌≡◌, refl, ◌⊎◌, inl, inr, Text, Option, none, some, List, [], ◌∷◌, done, arith,
  length,
}
use days_golang_master.GeeRpc.Service.{Service, MethodType, Argument, Reply, new_argv, new_replyv}
use days_golang_master.GeeRpc.Server.{
  Server, Header, Options, found, ill_formed, no_service, no_method, find_error, find_service,
  no_request, bad, good, body_error, read_body, read_request_header, read_request, Served, rejected,
  started, serve_loop, serve_codec,
}

module _ {V : Type 0} (as_header : V → Option Header) (as_argument : Argument → V → Option V)
    (server : Server) where
  -- The values of a connection on which each request is a header for a method that is offered and
  -- one more value, with what the loop does for each.
  pub data Requests (timeout : ℕ) : List V → List (Served V) → Type 0 where
    none_left : Requests timeout [] []
    fitting :
        (v w a : V) (h : Header) (svc : Service) (mt : MethodType) (r : Reply) (vs : List V)
        (out : List (Served V))
        → as_header v ≡ some h
        → find_service h.service_method server ≡ found svc mt
        → new_replyv mt ≡ done r
        → as_argument (new_argv mt) w ≡ some a
        → Requests timeout vs out
        → Requests timeout (v ∷ w ∷ vs) (
            started (record { header = h; svc = svc; mtype = mt; argv = a; replyv = r }) timeout
            ∷ out)
    unfitting :
        (v w : V) (h : Header) (svc : Service) (mt : MethodType) (r : Reply) (vs : List V)
        (out : List (Served V))
        → as_header v ≡ some h
        → find_service h.service_method server ≡ found svc mt
        → new_replyv mt ≡ done r
        → as_argument (new_argv mt) w ≡ none
        → Requests timeout vs out
        → Requests timeout (v ∷ w ∷ vs) (rejected (record h { error = body_error }) ∷ out)

  read_fitting :
      (v w a : V) (h : Header) (svc : Service) (mt : MethodType) (r : Reply) (vs : List V)
      → as_header v ≡ some h
      → find_service h.service_method server ≡ found svc mt
      → new_replyv mt ≡ done r
      → as_argument (new_argv mt) w ≡ some a
      → read_request as_header as_argument server (v ∷ w ∷ vs)
        ≡ done (good (record { header = h; svc = svc; mtype = mt; argv = a; replyv = r }) vs)
  unfolding read_request read_request_header read_body
  read_fitting v w a h svc mt r vs e f n g = ground arith

  read_unfitting :
      (v w : V) (h : Header) (svc : Service) (mt : MethodType) (r : Reply) (vs : List V)
      → as_header v ≡ some h
      → find_service h.service_method server ≡ found svc mt
      → new_replyv mt ≡ done r
      → as_argument (new_argv mt) w ≡ none
      → read_request as_header as_argument server (v ∷ w ∷ vs) ≡ done (bad h body_error vs)
  unfolding read_request read_request_header read_body
  read_unfitting v w h svc mt r vs e f n g = ground arith

  loop-Requests :
      (timeout rounds : ℕ) (vs : List V) (out : List (Served V))
      → length vs < rounds
      → Requests timeout vs out
      → serve_loop as_header as_argument rounds server timeout vs ≡ done out
  unfolding serve_loop read_request read_request_header
  loop-Requests timeout zero vs out lt h = absurd (omega arith)
  loop-Requests timeout (suc rounds) vs out lt none_left = refl
  loop-Requests timeout (suc rounds) vs out lt (fitting v w a h svc mt r rest more e f n g q) =
      rw (read_fitting v w a h svc mt r rest e f n g)
        (rw (loop-Requests timeout rounds rest more (omega arith) q) refl)
  loop-Requests timeout (suc rounds) vs out lt (unfitting v w h svc mt r rest more e f n g q) =
      rw (read_unfitting v w h svc mt r rest e f n g)
        (rw (loop-Requests timeout rounds rest more (omega arith) q) refl)

  -- On a connection with requests for methods that the server offers, the loop of serveCodec takes the
  -- requests in their order, each once, until there are none left, and returns: where the argument
  -- fits, it starts a goroutine for the call of that method with that argument and the timeout of the
  -- options; where it does not, it sends an error and goes on. In which order the goroutines answer is
  -- left open.
  pub serve_codec-Requests :
      (opt : Options) (vs : List V) (out : List (Served V))
      → Requests opt.handle_timeout vs out
      → serve_codec as_header as_argument server opt vs ≡ done out
  unfolding serve_codec
  serve_codec-Requests opt vs out h =
      loop-Requests opt.handle_timeout (suc (length vs)) vs out (omega arith) h

  -- A request for a method that the server does not offer.
  abbrev pub IsMissing : Header → Text → Type 0
  IsMissing h e =
      ((s : Text) × ((find_service h.service_method server ≡ ill_formed s)
          ⊎ ((find_service h.service_method server ≡ no_service s)
              ⊎ (find_service h.service_method server ≡ no_method s))))
      × (find_error (find_service h.service_method server) ≡ e)

  read_missing :
      (v : V) (h : Header) (e : Text) (vs : List V)
      → as_header v ≡ some h
      → IsMissing h e
      → read_request as_header as_argument server (v ∷ vs) ≡ done (bad h e vs)
  unfolding read_request read_request_header
  read_missing v h e vs k ((s, inl f), g) = ground arith
  read_missing v h e vs k ((s, inr (inl f)), g) = ground arith
  read_missing v h e vs k ((s, inr (inr f)), g) = ground arith

  read_nothing :
      (w : V) (vs : List V)
      → as_header w ≡ none
      → read_request as_header as_argument server (w ∷ vs) ≡ done no_request
  unfolding read_request read_request_header
  read_nothing w vs n = ground arith

  -- The argument of a request for a method that is not offered is left on the connection: unless it
  -- decodes as a header, the loop ends there, and what follows is never answered.
  pub serve_codec-missing :
      (opt : Options) (v w : V) (h : Header) (e : Text) (vs : List V)
      → as_header v ≡ some h
      → IsMissing h e
      → as_header w ≡ none
      → serve_codec as_header as_argument server opt (v ∷ w ∷ vs)
        ≡ done (rejected (record h { error = e }) ∷ [])
  unfolding serve_codec serve_loop
  serve_codec-missing opt v w h e vs k m n =
      rw (read_missing v h e (w ∷ vs) k m) (rw (read_nothing w vs n) refl)
