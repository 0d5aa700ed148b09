-- ===== src/GeeCache/SingleFlight/Panics.antt =====
-- What a panic of the function leaves behind in gee-cache/day7-proto-buf/geecache/singleflight.
use days_golang_master.Base.{
  ℕ, ◌≡◌, ◌≢◌, sym, ap, ◌∙◌, inl, inr, Text, text_discrete, none, some, arith, if_neg, ℕ_discrete,
  none-ne-some, eq_of_some, subst, Option-cases,
}
use days_golang_master.Base.Table
use days_golang_master.Base.Table.{Table, get-put, get-delete}
use days_golang_master.GeeCache.SingleFlight.{
  Place, crashed, calling, waiting, running, deleting, returned, Group, start, move, Step, enters,
  joins, leads, fn_returns, fn_panics, deletes, wakes, Steps, here, then,
}
use days_golang_master.GeeCache.SingleFlight.Invariant.{Leads, Inv, led, move-cases}
use days_golang_master.GeeCache.SingleFlight.Keeping.{reached-Inv, Step-Inv, running_injective}

module _ {R : Type 0} where
  -- The call of a key that nobody leads any more: it stays in the map, and its wait group is not done.
  abbrev IsStuck : Text → ℕ → Group R → Type 0
  IsStuck key c g =
      (Table.get text_discrete key g.m ≡ some c)
      × (Table.get ℕ_discrete c g.results ≡ none)
      × ((t : ℕ) (k : Text) → Leads (g.place t) k c → ⊥)

  still_unled :
      (t : ℕ) (p : Place R) (g : Group R) (c : ℕ)
      → ((k : Text) → Leads p k c → ⊥)
      → ((u : ℕ) (k : Text) → Leads (g.place u) k c → ⊥)
      → (u : ℕ) (k : Text) → Leads (move t p g u) k c
      → ⊥
  still_unled t p g c n h u k l = h u k (led t p g u k c (λ l'. absurd (n k l')) l)

  no_lead :
      (p : Place R)
      → ((k : Text) (c : ℕ) → p ≢ running k c)
      → ((k : Text) (c : ℕ) (r : R) → p ≢ deleting k c r)
      → (k : Text) (c : ℕ) → Leads p k c
      → ⊥
  no_lead p n m k c (inl e) = n k c e
  no_lead p n m k c (inr (r, e)) = m k c r e

  deleting-call :
      {k j : Text} {d c : ℕ} {r q : R} → ◌≡◌ {A = Place R} (deleting k d r) (deleting j c q) → d ≡ c
  deleting-call e = cc

  Step-IsStuck :
      (key : Text) (c : ℕ) {g h : Group R} → Step g h → Inv g → IsStuck key c g → IsStuck key c h
  Step-IsStuck key c {g} (enters t k at) inv (a, b, n) = (
    a,
    b,
    still_unled t (calling k) g c (λ j. no_lead (calling k) (λ x y e. cc) (λ x y r e. cc) j c) n,
  )
  Step-IsStuck key c {g} (joins t k d at e) inv (a, b, n) = (
    a,
    b,
    still_unled t (waiting k d) g c (λ j. no_lead (waiting k d) (λ x y e. cc) (λ x y r e. cc) j c)
        n,
  )
  Step-IsStuck key c {g} (leads t k at e) inv (a, b, n) = (
    rw
        (
          get-put text_discrete key k g.fresh g.m,
          if_neg _ (λ q. none-ne-some (sym e ∙ (ap (λ x. Table.get text_discrete x g.m) q ∙ a))),
        )
        a,
    b,
    still_unled t (running k g.fresh) g c
        (λ j l. absurd (
          omega
            (arith, (running_injective k j g.fresh c l).1, inv.early key c (inv.mapped key c a))))
        n,
  )
  Step-IsStuck key c {g} (fn_returns t k d r at) inv (a, b, n) =
      let other : d ≢ c = λ q. n t k (subst (Leads (g.place t) k) q (inl at)) in
      (
        a,
        rw (get-put ℕ_discrete c d r g.results, if_neg _ other) b,
        still_unled t (deleting k d r) g c
            (λ j l. elim l [ inl q ↦ cc | inr q ↦ let (x, q') = q in other (deleting-call q') ]) n,
      )
  Step-IsStuck key c {g} (fn_panics t k d at) inv (a, b, n) =
      (a, b, still_unled t crashed g c (λ j. no_lead crashed (λ x y e. cc) (λ x y r e. cc) j c) n)
  Step-IsStuck key c {g} (deletes t k d r at) inv (a, b, n) = (
    rw
        (
          get-delete text_discrete key k g.m,
          if_neg _ (λ q. n t k (
              subst (Leads (g.place t) k)
                (eq_of_some (
                  sym (inv.owned t k d (inr (r, at)))
                  ∙ (ap (λ x. Table.get text_discrete x g.m) q ∙ a)))
                (inr (r, at)))),
        )
        a,
    b,
    still_unled t (returned k r) g c (λ j. no_lead (returned k r) (λ x y e. cc) (λ x y q e. cc) j c)
        n,
  )
  Step-IsStuck key c {g} (wakes t k d r at e) inv (a, b, n) = (
    a,
    b,
    still_unled t (returned k r) g c (λ j. no_lead (returned k r) (λ x y e. cc) (λ x y r e. cc) j c)
        n,
  )

  Steps-IsStuck :
      (key : Text) (c : ℕ) {g h : Group R}
      → Steps g h
      → Inv g
      → IsStuck key c g
      → Inv h × IsStuck key c h
  Steps-IsStuck key c here inv k = (inv, k)
  Steps-IsStuck key c (then s st) inv k =
      let (inv', k') = Steps-IsStuck key c s inv k in
      (Step-Inv st inv', Step-IsStuck key c st inv' k')

  -- The move of a goroutine that does not wait for the call is not that of a waiter.
  moves_other :
      (t u : ℕ) (p : Place R) (g : Group R) (key : Text) (c : ℕ)
      → (g.place t ≡ waiting key c → ⊥)
      → g.place u ≡ waiting key c
      → move t p g u ≡ waiting key c
  moves_other t u p g key c n w = elim (move-cases t p g u) [
    | inl (e, q) ↦ absurd (n (ap g.place e ∙ w))
    | inr (m, q) ↦ q ∙ w
  ]

  waiting-call : {k j : Text} {d c : ℕ} → ◌≡◌ {A = Place R} (waiting k d) (waiting j c) → d ≡ c
  waiting-call e = cc

  -- A waiter of such a call does not move.
  Step-waits :
      (key : Text) (c u : ℕ) {g h : Group R}
      → Step g h
      → IsStuck key c g
      → g.place u ≡ waiting key c
      → h.place u ≡ waiting key c
  Step-waits key c u {g} (enters t k at) s w = moves_other t u (calling k) g key c (λ e. cc) w
  Step-waits key c u {g} (joins t k d at e) s w = moves_other t u (waiting k d) g key c (λ e'. cc) w
  Step-waits key c u {g} (leads t k at e) s w =
      moves_other t u (running k g.fresh) g key c (λ e'. cc) w
  Step-waits key c u {g} (fn_returns t k d r at) s w =
      moves_other t u (deleting k d r) g key c (λ e. cc) w
  Step-waits key c u {g} (fn_panics t k d at) s w = moves_other t u crashed g key c (λ e. cc) w
  Step-waits key c u {g} (deletes t k d r at) s w =
      moves_other t u (returned k r) g key c (λ e. cc) w
  Step-waits key c u {g} (wakes t k d r at e) (a, b, n) w =
      moves_other t u (returned k r) g key c
        (λ q. none-ne-some (
          sym b
          ∙ (ap (λ x. Table.get ℕ_discrete x g.results) (sym (waiting-call (sym at ∙ q))) ∙ e)))
        w

  Steps-waits :
      (key : Text) (c u : ℕ) {g h : Group R}
      → Steps g h
      → Inv g
      → IsStuck key c g
      → g.place u ≡ waiting key c
      → h.place u ≡ waiting key c
  Steps-waits key c u here inv k w = w
  Steps-waits key c u (then s st) inv k w =
      Step-waits key c u st (Steps-IsStuck key c s inv k).1 (Steps-waits key c u s inv k w)

  -- The call of a goroutine that executes the function has no result.
  abbrev IsUnfinished : Group R → Type 0
  IsUnfinished g =
      (t : ℕ) (k : Text) (c : ℕ) → g.place t ≡ running k c → Table.get ℕ_discrete c g.results ≡ none

  still-IsUnfinished :
      (t : ℕ) (p : Place R) (g : Group R)
      → ((k : Text) (c : ℕ) → p ≢ running k c)
      → IsUnfinished g
      → IsUnfinished (record g { place = move t p g })
  still-IsUnfinished t p g n h u k c at = elim (move-cases t p g u) [
    | inl (e, q) ↦ absurd (n k c (sym q ∙ at))
    | inr (m, q) ↦ h u k c (sym q ∙ at)
  ]

  no_result : (g : Group R) → Inv g → Table.get ℕ_discrete g.fresh g.results ≡ none
  no_result g inv = elim (Option-cases (Table.get ℕ_discrete g.fresh g.results)) [
    | inl e ↦ e
    | inr (r, e) ↦
        let (k, b, x) = inv.honest g.fresh r e in absurd (omega (arith, inv.early k g.fresh b))
  ]

  Step-IsUnfinished : {g h : Group R} → Step g h → Inv g → IsUnfinished g → IsUnfinished h
  Step-IsUnfinished {g} (enters t k at) inv h = still-IsUnfinished t (calling k) g (λ x y e. cc) h
  Step-IsUnfinished {g} (joins t k d at e) inv h =
      still-IsUnfinished t (waiting k d) g (λ x y e'. cc) h
  Step-IsUnfinished {g} (leads t k at e) inv h = λ u j c run.
      elim (move-cases t (running k g.fresh) g u) [
        | inl (e', q) ↦
            subst (λ x. Table.get ℕ_discrete x g.results ≡ none)
              (running_injective k j g.fresh c (inl (sym q ∙ run))).1 (no_result g inv)
        | inr (m, q) ↦ h u j c (sym q ∙ run)
      ]
  Step-IsUnfinished {g} (fn_returns t k d r at) inv h = λ u j c run.
      elim (move-cases t (deleting k d r) g u) [
        | inl (e, q) ↦ cc
        | inr (m, q) ↦
            rw
              (
                get-put ℕ_discrete c d r g.results,
                if_neg _ (λ e. m (
                    inv.sole t u k j c (subst (Leads (g.place t) k) e (inl at))
                      (inl (sym q ∙ run)))),
              )
              (h u j c (sym q ∙ run))
      ]
  Step-IsUnfinished {g} (fn_panics t k d at) inv h = still-IsUnfinished t crashed g (λ x y e. cc) h
  Step-IsUnfinished {g} (deletes t k d r at) inv h =
      still-IsUnfinished t (returned k r) g (λ x y e. cc) h
  Step-IsUnfinished {g} (wakes t k d r at e) inv h =
      still-IsUnfinished t (returned k r) g (λ x y e'. cc) h

  reached-IsUnfinished : {g : Group R} → Steps start g → IsUnfinished g
  reached-IsUnfinished here = λ t k c e. cc
  reached-IsUnfinished (then s st) = Step-IsUnfinished st (reached-Inv s) (reached-IsUnfinished s)

  crashed-IsStuck :
      (g : Group R) (t : ℕ) (key : Text) (c : ℕ)
      → g.place t ≡ running key c
      → Steps start g
      → IsStuck key c (record g { place = move t crashed g })
  crashed-IsStuck g t key c at s =
      let inv = reached-Inv s in
      (
        inv.owned t key c (inl at),
        reached-IsUnfinished s t key c at,
        λ u k l. elim (move-cases t crashed g u) [
          | inl (e, q) ↦
              no_lead crashed (λ x y e'. cc) (λ x y r e'. cc) k c (subst (λ p. Leads p k c) q l)
          | inr (m, q) ↦ m (inv.sole t u key k c (inl at) (subst (λ p. Leads p k c) q l))
        ],
      )

  -- When the function panics for a key, the key stays in the map for ever after, so that each later
  -- Do with this key joins the dead call, and every goroutine that waits for it waits for ever.
  pub panics-block :
      (g : Group R) (t : ℕ) (key : Text) (c : ℕ)
      → Steps start g
      → g.place t ≡ running key c
      → (h : Group R) → Steps (record g { place = move t crashed g }) h
      → (Table.get text_discrete key h.m ≡ some c)
        × ((u : ℕ)
            → h.place u ≡ waiting key c
            → (k : Group R) → Steps h k
            → k.place u ≡ waiting key c)
  panics-block g t key c s at h more =
      let inv = reached-Inv s in
      let (inv', stuck) =
        Steps-IsStuck key c more (Step-Inv (fn_panics t key c at) inv)
          (crashed-IsStuck g t key c at s) in
      (stuck.0, λ u w k later. Steps-waits key c u later inv' stuck w)
