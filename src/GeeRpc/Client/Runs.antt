-- ===== src/GeeRpc/Client/Runs.antt =====
-- The account of the calls of gee-rpc/day7-registry/client.go over whole runs, in whatever order the
-- goroutines take their steps.
use days_golang_master.Base.{
  ℕ, suc, ◌^◌, ◌≤◌, ◌<◌, ◌≡◌, ◌≢◌, refl, sym, ◌∙◌, ◌⊎◌, inl, inr, Option, none, some, List, [], ◌∷◌,
  arith, length, true, eq_of_some, none-ne-some, Option-cases, Bool-cases,
}
use days_golang_master.GeeRpc.Client.{
  Client, Receiver, reading, stopped, failed, Event, sends, writes, receives, header_fails,
  gives_up, terminates, closes, new, close, terminate_calls, begin_send, end_send, receive, step,
  run, issued,
}
use days_golang_master.GeeRpc.Client.Pending.{
  Accounts, IsValid, removed-IsValid, give_up-IsValid, begin_send-IsValid, terminate_calls-IsValid,
  receive-Removes, end_send-Removes, is_on,
}

-- What the guards of `step` let through.
when_free :
    (o : Option ℕ) (x d : Client)
    → elim o [ none ↦ some x | some _ ↦ none ] ≡ some d
    → (o ≡ none) × (x ≡ d)
when_free none x d e = (refl, eq_of_some e)
when_free (some s) x d e = absurd (none-ne-some e)

when_held :
    (o : Option ℕ) (f : ℕ → Client) (d : Client)
    → elim o [ none ↦ none | some s ↦ some (f s) ] ≡ some d
    → (s : ℕ) × (o ≡ some s) × (f s ≡ d)
when_held none f d e = absurd (none-ne-some e)
when_held (some s) f d e = (s, refl, eq_of_some e)

when_reading :
    (o : Receiver) (x d : Client)
    → elim o [ reading ↦ some x | stopped ↦ none | failed _ ↦ none ] ≡ some d
    → (o ≢ stopped) × (x ≡ d)
when_reading reading x d e = (λ k. cc, eq_of_some e)
when_reading stopped x d e = absurd (none-ne-some e)
when_reading (failed r) x d e = absurd (none-ne-some e)

when_failed :
    (o : Receiver) (f : ℕ → Option Client) (d : Client)
    → elim o [ reading ↦ none | stopped ↦ none | failed e ↦ f e ] ≡ some d
    → (e : ℕ) × (o ≢ stopped) × (f e ≡ some d)
when_failed reading f d e = absurd (none-ne-some e)
when_failed stopped f d e = absurd (none-ne-some e)
when_failed (failed r) f d e = (r, λ k. cc, e)

-- Changes that the account does not see.
idle-IsValid :
    (calls : List ℕ) (c : Client) → IsValid calls c → IsValid calls (record c { sending = none })
idle-IsValid calls c (n, inl a) = (n, inl a)
idle-IsValid calls c (n, inr (on, re, se, all)) = (n, inr (on, re, refl, all))

failed-IsValid :
    (calls : List ℕ) (r : ℕ) (c : Client)
    → c.receiver ≢ stopped
    → IsValid calls c
    → IsValid calls (record c { receiver = failed r })
failed-IsValid calls r c on (n, inl a) = (n, inl a)
failed-IsValid calls r c on (n, inr (_, re, se, all)) = absurd (on re)

close_fields : (c : Client) → ((close c).0 ≡ c) ⊎ ((close c).0 ≡ record c { closing = true })
unfolding close
close_fields c = elim (Bool-cases c.closing) [
  | inl e ↦ inl (ground arith)
  | inr e ↦ inr (ground arith)
]

close-IsValid : (calls : List ℕ) (c : Client) → IsValid calls c → IsValid calls (close c).0
close-IsValid calls c h = elim (close_fields c) [ inl e ↦ rw e h | inr e ↦ rw e h ]

-- Every step keeps the account.
step-IsValid :
    (e : Event) (es : List Event) (c d : Client)
    → suc (length (issued (e ∷ es))) < 2 ^ 64
    → step e c ≡ some d
    → IsValid (issued es) c
    → IsValid (issued (e ∷ es)) d
unfolding step end_send
step-IsValid (sends call) es c d small e h =
    let (idle, eq) = when_free c.sending (begin_send call c) d e in
    rw (sym eq) (begin_send-IsValid (issued es) call c small h)
step-IsValid (writes none) es c d small e h =
    let (s, held, eq) = when_held c.sending (λ s. end_send s none c) d e in
    rw (sym eq) (idle-IsValid (issued es) c h)
step-IsValid (writes (some r)) es c d small e h =
    let (s, held, eq) = when_held c.sending (λ s. end_send s (some r) c) d e in
    rw (sym eq) (
      removed-IsValid (issued es) s c (end_send s (some r) c) (end_send-Removes s r c)
        (is_on (issued es) c h.1 (inr (λ k. none-ne-some (sym k ∙ held)))) h)
step-IsValid (receives s err body r) es c d small e h =
    let (on, eq) = when_reading c.receiver (receive s err body r c) d e in
    rw (sym eq) (
      removed-IsValid (issued es) s c (receive s err body r c) (receive-Removes s err body r c)
        (is_on (issued es) c h.1 (inl on)) h)
step-IsValid (header_fails r) es c d small e h =
    let (on, eq) = when_reading c.receiver (record c { receiver = failed r }) d e in
    rw (sym eq) (failed-IsValid (issued es) r c on h)
step-IsValid terminates es c d small e h =
    let (r, on, e') =
      when_failed c.receiver
        (λ r. elim c.sending [ none ↦ some (terminate_calls r c) | some _ ↦ none ]) d e in
    let (idle, eq) = when_free c.sending (terminate_calls r c) d e' in
    rw (sym eq) (terminate_calls-IsValid (issued es) r c idle (is_on (issued es) c h.1 (inl on)) h)
step-IsValid (gives_up s) es c d small e h =
    rw (sym (eq_of_some e)) (give_up-IsValid (issued es) s c h)
step-IsValid closes es c d small e h = rw (sym (eq_of_some e)) (close-IsValid (issued es) c h)

run-cons :
    (e : Event) (es : List Event) (d : Client)
    → run (e ∷ es) ≡ some d
    → (c : Client) × (run es ≡ some c) × (step e c ≡ some d)
unfolding run
run-cons e es d h = elim (Option-cases (run es)) [
  | inl k ↦ absurd (ground arith)
  | inr (c, k) ↦ (c, k, ground arith)
]

length-issued : (e : Event) (es : List Event) → length (issued es) ≤ length (issued (e ∷ es))
length-issued (sends call) es = omega arith
length-issued (writes r) es = omega arith
length-issued (receives s err body r) es = omega arith
length-issued (header_fails r) es = omega arith
length-issued (gives_up s) es = omega arith
length-issued terminates es = omega arith
length-issued closes es = omega arith

run-IsValid :
    (es : List Event) (c : Client)
    → suc (length (issued es)) < 2 ^ 64
    → run es ≡ some c
    → IsValid (issued es) c
unfolding run new
run-IsValid [] c small h = rw (sym (eq_of_some h)) ((tt, tt, omega arith), inl (refl, λ i. refl))
run-IsValid (e ∷ es) d small h =
    let (c, k, l) = run-cons e es d h in
    step-IsValid e es c d small l (run-IsValid es c (omega (arith, length-issued e es)) k)

-- After any run of the steps of a client, in which fewer than 2 ^ 64 - 1 calls are issued: until it
-- is shut down, each call is pending, finished or dropped exactly as often as it was issued; from
-- then on no call is finished more often than it was issued, each issued call is finished or
-- dropped, and the receiver has stopped.
pub run-Accounts :
    (es : List Event) (c : Client)
    → suc (length (issued es)) < 2 ^ 64
    → run es ≡ some c
    → Accounts (issued es) c
run-Accounts es c small h = (run-IsValid es c small h).1
