-- ===== src/GeeWeb/Context/Chain.antt =====
-- The loop over one shared index, against the chain as nested calls: what the handlers after one
-- do is a value that it places where it calls Next, and else behind its own commands.
use days_golang_master.Base.{
  ℕ, zero, suc, ◌+◌, ◌≤◌, ◌<◌, ◌≡◌, refl, ap, sym, ◌∙◌, subst, none, some, List, [], ◌∷◌, ◌++◌,
  append-nil, append_assoc, length, get_elem?, get_elem?-lt, drop, Bool, true, false, if◌then◌else◌,
  arith, none-ne-some, eq_of_some, ◌-◌, dec_lt,
}
use days_golang_master.GeeWeb.Context.{
  Event, said, failed, say, fail, next, crash, guarded, Handler, Context, Ended, returned, panicked,
  out_of_rounds, emit, internal_error, run_commands, handler_at, run_loop, run_chain,
}

pub record Outcome : Type 0 where
  pub events : List Event
  pub panics : Bool

abbrev pub quiet : Outcome
quiet = record { events = []; panics = false }

abbrev pub after : List Event → Outcome → Outcome
after es o = record o { events = es ++ o.events }

-- A handler in front of a chain whose outcome is `rest`. Once the rest has run, or Fail was called,
-- there is nothing left to run.
unfoldable pub chain_commands : Outcome → Handler → Outcome
chain_commands rest [] = rest
chain_commands rest (say n ∷ cs) = after (said n ∷ []) (chain_commands rest cs)
chain_commands rest (fail n ∷ cs) = after (failed n ∷ []) (chain_commands quiet cs)
chain_commands rest (crash ∷ cs) = record { events = []; panics = true }
chain_commands rest (next ∷ cs) =
    let later = chain_commands quiet cs in if rest.panics then rest else after rest.events later
chain_commands rest (guarded ∷ cs) =
    let later = chain_commands quiet cs in
    after rest.events (if rest.panics then after (failed internal_error ∷ []) later else later)

unfoldable pub chain : List Handler → Outcome
chain [] = quiet
chain (h ∷ hs) = chain_commands (chain hs) h

-- A run adds the events of an outcome to a trace, and ends as it does, with the index past the end.
abbrev pub Meets : ℕ → List Event → Outcome → Ended → Type 0
Meets s t o (returned c) = (o.panics ≡ false) × (c.trace ≡ t ++ o.events) × (s < c.position)
Meets s t o (panicked c) = (o.panics ≡ true) × (c.trace ≡ t ++ o.events)
Meets s t o out_of_rounds = ⊥

Meets-after :
    (s : ℕ) (t t' es : List Event) (o : Outcome) (r : Ended)
    → t' ≡ t ++ es
    → Meets s t' o r
    → Meets s t (after es o) r
Meets-after s t t' es o (returned c) e (p, q, l) =
    (p, q ∙ ap (λ x. x ++ o.events) e ∙ append_assoc t es o.events, l)
Meets-after s t t' es o (panicked c) e (p, q) =
    (p, q ∙ ap (λ x. x ++ o.events) e ∙ append_assoc t es o.events)
Meets-after s t t' es o out_of_rounds e h = h

-- What the loop does after a handler has ended.
abbrev continue : (Context → Ended) → Ended → Ended
continue again (returned c) = again (record c { position = suc c.position })
continue again (panicked c) = panicked c
continue again out_of_rounds = out_of_rounds

module _ (again : Context → Ended) (s : ℕ) where
  -- Where the commands go on after Next has returned, and after the recover.
  abbrev resume : Handler → Ended → Ended
  resume cs r = elim r [
    | returned c ↦ run_commands again s cs c
    | panicked c ↦ panicked c
    | out_of_rounds ↦ out_of_rounds
  ]

  abbrev recover : Handler → Ended → Ended
  recover cs r = elim r [
    | returned c ↦ run_commands again s cs c
    | panicked c ↦
        run_commands again s cs (emit (failed internal_error) (record c { position = suc s }))
    | out_of_rounds ↦ out_of_rounds
  ]

  -- Commands behind a call of Next run with nothing left in the chain.
  abbrev IsLast : Handler → Type 0
  IsLast cs =
      (c : Context)
      → s < c.position
      → Meets s c.trace (chain_commands quiet cs) (continue again (run_commands again s cs c))

  resume-Meets :
      (cs : Handler) (t : List Event) (o : Outcome) (r : Ended)
      → IsLast cs
      → Meets s t o r
      → Meets s t (chain_commands o (next ∷ cs)) (continue again (resume cs r))
  unfolding chain_commands
  resume-Meets cs t o (returned c) last (p, q, l) =
      rw p (Meets-after s t c.trace o.events (chain_commands quiet cs) _ q (last c l))
  resume-Meets cs t o (panicked c) last (p, q) = rw p (refl, q)
  resume-Meets cs t o out_of_rounds last h = absurd h

  recover-Meets :
      (cs : Handler) (t : List Event) (o : Outcome) (r : Ended)
      → IsLast cs
      → Meets s t o r
      → Meets s t (chain_commands o (guarded ∷ cs)) (continue again (recover cs r))
  unfolding chain_commands
  recover-Meets cs t o (returned c) last (p, q, l) =
      rw p (Meets-after s t c.trace o.events (chain_commands quiet cs) _ q (last c l))
  recover-Meets cs t o (panicked c) last (p, q) =
      let c' = emit (failed internal_error) (record c { position = suc s }) in
      rw p (
        Meets-after s t c.trace o.events
          (after (failed internal_error ∷ []) (chain_commands quiet cs)) _ q
          (Meets-after s c.trace c'.trace (failed internal_error ∷ []) (chain_commands quiet cs) _
            refl (last c' (omega arith))))
  recover-Meets cs t o out_of_rounds last h = absurd h

  module _ (spent : (c : Context) → s < c.position → Meets s c.trace quiet (again c)) where
    -- With the index past the end, Next does nothing.
    commands-spent : (cs : Handler) → IsLast cs
    unfolding run_commands chain_commands
    commands-spent [] c past = spent (record c { position = suc c.position }) (omega arith)
    commands-spent (say n ∷ cs) c past =
        Meets-after s c.trace (c.trace ++ said n ∷ []) (said n ∷ []) (chain_commands quiet cs) _
          refl (commands-spent cs (emit (said n) c) past)
    commands-spent (fail n ∷ cs) c past =
        Meets-after s c.trace (c.trace ++ failed n ∷ []) (failed n ∷ []) (chain_commands quiet cs) _
          refl (commands-spent cs (emit (failed n) (record c { position = suc s })) (omega arith))
    commands-spent (crash ∷ cs) c past = (refl, sym (append-nil c.trace))
    commands-spent (next ∷ cs) c past =
        resume-Meets cs c.trace quiet (again (record c { position = suc c.position }))
          (commands-spent cs) (spent (record c { position = suc c.position }) (omega arith))
    commands-spent (guarded ∷ cs) c past =
        recover-Meets cs c.trace quiet (again (record c { position = suc c.position }))
          (commands-spent cs) (spent (record c { position = suc c.position }) (omega arith))

    -- A handler whose Next runs the rest of the chain.
    commands-fresh :
        (i : ℕ) (rest : Outcome)
        → ((c : Context) → c.position ≡ suc i → Meets s c.trace rest (again c))
        → (cs : Handler) (c : Context) → c.position ≡ i
        → Meets s c.trace (chain_commands rest cs) (continue again (run_commands again s cs c))
    unfolding run_commands chain_commands
    commands-fresh i rest later [] c at = later (record c { position = suc c.position }) (ap suc at)
    commands-fresh i rest later (say n ∷ cs) c at =
        Meets-after s c.trace (c.trace ++ said n ∷ []) (said n ∷ []) (chain_commands rest cs) _ refl
          (commands-fresh i rest later cs (emit (said n) c) at)
    commands-fresh i rest later (fail n ∷ cs) c at =
        Meets-after s c.trace (c.trace ++ failed n ∷ []) (failed n ∷ []) (chain_commands quiet cs) _
          refl (commands-spent cs (emit (failed n) (record c { position = suc s })) (omega arith))
    commands-fresh i rest later (crash ∷ cs) c at = (refl, sym (append-nil c.trace))
    commands-fresh i rest later (next ∷ cs) c at =
        resume-Meets cs c.trace rest (again (record c { position = suc c.position }))
          (commands-spent cs) (later (record c { position = suc c.position }) (ap suc at))
    commands-fresh i rest later (guarded ∷ cs) c at =
        recover-Meets cs c.trace rest (again (record c { position = suc c.position }))
          (commands-spent cs) (later (record c { position = suc c.position }) (ap suc at))

get_elem?-past : (l : List Handler) (j : ℕ) → length l ≤ j → get_elem? l j ≡ none
get_elem?-past [] j le = refl
get_elem?-past (x ∷ l) zero le = absurd (omega arith)
get_elem?-past (x ∷ l) (suc j) le = get_elem?-past l j (omega arith)

drop-past : (l : List Handler) (j : ℕ) → length l ≤ j → drop j l ≡ []
drop-past [] zero le = refl
drop-past [] (suc j) le = refl
drop-past (x ∷ l) zero le = absurd (omega arith)
drop-past (x ∷ l) (suc j) le = drop-past l j (omega arith)

drop-get :
    (l : List Handler) (j : ℕ) (h : Handler)
    → get_elem? l j ≡ some h
    → drop j l ≡ h ∷ drop (suc j) l
drop-get [] j h e = absurd (none-ne-some e)
drop-get (x ∷ l) zero h e = ap (λ y. y ∷ l) (eq_of_some e)
drop-get (x ∷ l) (suc j) h e = drop-get l j h e

true-ne-false : {b : Bool} → b ≡ true → b ≡ false → ⊥
true-ne-false p q = cc

chain-cons : (h : Handler) (hs : List Handler) → chain (h ∷ hs) ≡ chain_commands (chain hs) h
unfolding chain
chain-cons h hs = refl

guarded-events :
    (o : Outcome)
    → (chain_commands o (guarded ∷ [])).events
      ≡ (if o.panics then o.events ++ failed internal_error ∷ [] else o.events)
unfolding chain_commands
guarded-events o = ground (arith, append-nil o.events)

guarded-panics : (o : Outcome) → (chain_commands o (guarded ∷ [])).panics ≡ false
unfolding chain_commands
guarded-panics o = ground arith

module _ (hs : List Handler) where
  handler_at-suc : (i p : ℕ) → p ≡ suc i → handler_at hs p ≡ get_elem? hs i
  handler_at-suc i p e = ap (handler_at hs) e ∙ (unfold handler_at in refl)

  run_loop-stop :
      (rounds : ℕ) (c : Context)
      → handler_at hs c.position ≡ none
      → run_loop (suc rounds) hs c ≡ returned c
  unfolding run_loop
  run_loop-stop rounds c e = ground (arith, e)

  run_loop-step :
      (rounds : ℕ) (c : Context) (h : Handler)
      → handler_at hs c.position ≡ some h
      → run_loop (suc rounds) hs c
        ≡ continue (run_loop rounds hs) (run_commands (run_loop rounds hs) (length hs) h c)
  unfolding run_loop
  run_loop-step rounds c h e = rw (e, run_loop)

  loop-past :
      (rounds i : ℕ) (c : Context)
      → c.position ≡ suc i
      → length hs ≤ i
      → Meets (length hs) c.trace quiet (run_loop (suc rounds) hs c)
  loop-past rounds i c at past =
      subst (Meets (length hs) c.trace quiet)
        (sym (run_loop-stop rounds c (handler_at-suc i c.position at ∙ get_elem?-past hs i past)))
        (refl, sym (append-nil c.trace), omega arith)

  loop-spent :
      (rounds : ℕ) (c : Context)
      → length hs < c.position
      → Meets (length hs) c.trace quiet (run_loop (suc rounds) hs c)
  loop-spent rounds c past = loop-past rounds (c.position - 1) c (omega arith) (omega arith)

  -- From the handler at an index on, the loop meets the chain of the handlers from there.
  loop-Meets :
      (rounds i : ℕ) (c : Context)
      → c.position ≡ suc i
      → length hs ≤ rounds + i
      → Meets (length hs) c.trace (chain (drop i hs)) (run_loop (suc rounds) hs c)
  loop-Meets zero i c at enough =
      subst (λ l. Meets (length hs) c.trace (chain l) (run_loop 1 hs c))
        (sym (drop-past hs i (omega arith))) (unfold chain in loop-past 0 i c at (omega arith))
  loop-Meets (suc rounds) i c at enough = elim (dec_lt i (length hs)) [
    | no past ↦
        subst (λ l. Meets (length hs) c.trace (chain l) (run_loop (suc (suc rounds)) hs c))
          (sym (drop-past hs i (omega arith)))
          (unfold chain in loop-past (suc rounds) i c at (omega arith))
    | yes lt ↦
        let (h, e) = get_elem?-lt hs i lt in
        let inside =
          commands-fresh (run_loop (suc rounds) hs) (length hs) (λ d past. loop-spent rounds d past)
            (suc i) (chain (drop (suc i) hs))
            (λ d at'. loop-Meets rounds (suc i) d at' (omega arith)) h c at in
        subst (Meets (length hs) c.trace (chain (drop i hs)))
          (sym (run_loop-step (suc rounds) c h (handler_at-suc i c.position at ∙ e)))
          (subst
            (λ o. Meets (length hs) c.trace o (
              continue (run_loop (suc rounds) hs)
                (run_commands (run_loop (suc rounds) hs) (length hs) h c)))
            (sym (ap chain (drop-get hs i h e) ∙ chain-cons h (drop (suc i) hs))) inside)
  ]

-- The chain of handlers, run by one shared index with more rounds than handlers, ends, and does
-- what the nested calls do: the same events in the same order, and a panic exactly where they panic.
pub run_chain-Meets :
    (rounds : ℕ) (hs : List Handler)
    → length hs < rounds
    → Meets (length hs) [] (chain hs) (run_chain rounds hs)
unfolding run_chain
run_chain-Meets zero hs enough = absurd (omega arith)
run_chain-Meets (suc rounds) hs enough =
    loop-Meets hs rounds 0 (record { position = 1; trace = [] }) refl (omega arith)

-- With Recovery in front no panic leaves the chain: the run returns, and if the rest panics, what
-- it did is followed by the answer of Fail.
pub run_chain-recovers :
    (rounds : ℕ) (hs : List Handler)
    → suc (length hs) < rounds
    → (c : Context) × (run_chain rounds ((guarded ∷ []) ∷ hs) ≡ returned c)
      × (c.trace ≡ (
          if (chain hs).panics
          then (chain hs).events ++ failed internal_error ∷ []
          else (chain hs).events))
run_chain-recovers rounds hs enough =
    returns (run_chain rounds ((guarded ∷ []) ∷ hs)) refl
      (run_chain-Meets rounds ((guarded ∷ []) ∷ hs) enough)
  where
    returns :
        (r : Ended)
        → run_chain rounds ((guarded ∷ []) ∷ hs) ≡ r
        → Meets (suc (length hs)) [] (chain ((guarded ∷ []) ∷ hs)) r
        → (c : Context) × (run_chain rounds ((guarded ∷ []) ∷ hs) ≡ returned c)
          × (c.trace ≡ (
              if (chain hs).panics
              then (chain hs).events ++ failed internal_error ∷ []
              else (chain hs).events))
    returns (returned c) e (p, q, l) =
        (c, e, q ∙ ap (λ o. o.events) (chain-cons (guarded ∷ []) hs) ∙ guarded-events (chain hs))
    returns (panicked c) e (p, q) = absurd (
        true-ne-false p
          (ap (λ o. o.panics) (chain-cons (guarded ∷ []) hs) ∙ guarded-panics (chain hs)))
    returns out_of_rounds e h = absurd h
