-- ===== src/GeeRpc/Client.antt =====
-- gee-rpc/day7-registry/client.go: the calls of a client that wait for their replies. The goroutine
-- of each caller registers its call and writes the request, one goroutine receives the replies, and
-- a caller may give up; `sending` is a lock held from the registration to the end of the write, so
-- these parts interleave as the steps below.
--
-- A call is a pointer, here a number; `finished` is what was sent on the channels of the calls, the
-- latest first, and `dropped` the calls that were pending when their callers gave up. Errors of the
-- connection are numbers, a body is a text.

pub mod Count
pub mod Pending
pub mod Runs
mod Tests
use days_golang_master.Base.{
  ℕ, ◌+◌, Text, Option, none, some, List, [], ◌∷◌, ◌++◌, map, ite, Bool, true, false, ℕ_discrete,
  text_discrete, add64,
}
use days_golang_master.Base.Table
use days_golang_master.Base.Table.{Table}

-- What a call's channel delivers: the reply, or the error that the code sets.
pub data Outcome : Type 0 where
  replied : Text → Outcome
  server_error : Text → Outcome
  shut_down : Outcome
  write_failed body_failed terminated : ℕ → Outcome

-- The goroutine of receive: in its loop, out of it with an error, or at its end.
pub data Receiver : Type 0 where
  reading stopped : Receiver
  failed : ℕ → Receiver

pub record Client : Type 0 where
  pub seq : ℕ
  pub pending : Table ℕ ℕ
  pub closing : Bool
  pub shutdown : Bool
  -- the number of the request whose write is under way, while the lock is held
  pub sending : Option ℕ
  pub receiver : Receiver
  pub finished : List (ℕ × Outcome)
  pub dropped : List ℕ

-- newClientCodec: the number 0 means an invalid call.
unfoldable pub new : Client
new = record {
  seq = 1;
  pending = [];
  closing = false;
  shutdown = false;
  sending = none;
  receiver = reading;
  finished = [];
  dropped = [];
}

-- Close; the second component is ErrShutdown.
unfoldable pub close : Client → Client × Bool
close c = elim c.closing [ true ↦ (c, true) | false ↦ (record c { closing = true }, false) ]

unfoldable pub is_available : Client → Bool
is_available c = elim c.shutdown [
  | true ↦ false
  | false ↦ elim c.closing [ true ↦ false | false ↦ true ]
]

unfoldable pub register_call : ℕ → Client → Client × Option ℕ
register_call call c =
    let registered : Client × Option ℕ = (
      record c { pending = Table.put ℕ_discrete c.seq call c.pending; seq = add64 c.seq 1 },
      some c.seq,
    ) in
    elim c.closing [
      | true ↦ (c, none)
      | false ↦ elim c.shutdown [ true ↦ (c, none) | false ↦ registered ]
    ]

unfoldable pub remove_call : ℕ → Client → Client × Option ℕ
remove_call seq c = (
  record c { pending = Table.delete ℕ_discrete seq c.pending },
  Table.get ℕ_discrete seq c.pending,
)

-- call.Error = …; call.done()
unfoldable pub finish : ℕ → Outcome → Client → Client
finish call outcome c = record c { finished = (call, outcome) ∷ c.finished }

unfoldable pub terminate_calls : ℕ → Client → Client
terminate_calls err c = record c {
  shutdown = true;
  receiver = stopped;
  finished = map (λ (seq, call). (call, terminated err)) c.pending ++ c.finished;
}

-- send up to the write.
unfoldable pub begin_send : ℕ → Client → Client
begin_send call c =
    let (c', seq) = register_call call c in
    elim seq [ none ↦ finish call shut_down c' | some s ↦ record c' { sending = some s } ]

-- send after the write of the request `seq`, with its error.
unfoldable pub end_send : ℕ → Option ℕ → Client → Client
end_send seq err c =
    let (c', call) = remove_call seq c in
    elim err [
      | none ↦ record c { sending = none }
      | some e ↦ elim call [
        | none ↦ record c' { sending = none }
        | some i ↦ finish i (write_failed e) (record c' { sending = none })
      ]
    ]

-- The end of a round of receive: an error of ReadBody leaves the loop.
unfoldable pub read_body : Option ℕ → Client → Client
read_body none c = c
read_body (some e) c = record c { receiver = failed e }

-- A round of receive: a header with its number and error, and what ReadBody returns.
unfoldable pub receive : ℕ → Text → Text → Option ℕ → Client → Client
receive seq err body read c =
    let (c', call) = remove_call seq c in
    let fail : Outcome = elim read [ none ↦ replied body | some e ↦ body_failed e ] in
    elim call [
      | none ↦ read_body read c'
      | some i ↦ read_body read (finish i (ite (text_discrete err []) fail (server_error err)) c')
    ]

-- Call gives up when its context is done.
unfoldable pub give_up : ℕ → Client → Client
give_up seq c =
    let (c', call) = remove_call seq c in
    elim call [ none ↦ c' | some i ↦ record c' { dropped = i ∷ c'.dropped } ]

pub data Event : Type 0 where
  sends : ℕ → Event
  writes : Option ℕ → Event
  receives : ℕ → Text → Text → Option ℕ → Event
  header_fails : ℕ → Event
  gives_up : ℕ → Event
  terminates closes : Event

-- The goroutine that an event belongs to waits unless it is its turn: a write ends only after its
-- registration, and the lock admits a send and the end of receive only when it is free.
unfoldable pub step : Event → Client → Option Client
step (sends call) c = elim c.sending [ none ↦ some (begin_send call c) | some _ ↦ none ]
step (writes err) c = elim c.sending [ none ↦ none | some s ↦ some (end_send s err c) ]
step (receives seq err body read) c = elim c.receiver [
  | reading ↦ some (receive seq err body read c)
  | stopped ↦ none
  | failed _ ↦ none
]
step (header_fails e) c = elim c.receiver [
  | reading ↦ some (record c { receiver = failed e })
  | stopped ↦ none
  | failed _ ↦ none
]
step terminates c = elim c.receiver [
  | reading ↦ none
  | stopped ↦ none
  | failed e ↦ elim c.sending [ none ↦ some (terminate_calls e c) | some _ ↦ none ]
]
step (gives_up seq) c = some (give_up seq c)
step closes c = some (close c).0

-- A run, the latest event first.
unfoldable pub run : List Event → Option Client
run [] = some new
run (e ∷ es) = elim (run es) [ none ↦ none | some c ↦ step e c ]

-- The calls that were passed to send.
abbrev pub issued : List Event → List ℕ
issued [] = []
issued (sends call ∷ es) = call ∷ issued es
issued (e ∷ es) = issued es
