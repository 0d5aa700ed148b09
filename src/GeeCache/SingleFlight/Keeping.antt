-- ===== src/GeeCache/SingleFlight/Keeping.antt =====
-- Every step of gee-cache/day7-proto-buf/geecache/singleflight keeps the invariant.
use days_golang_master.Base.{
  ℕ, suc, ◌≡◌, refl, sym, ap, ◌∙◌, ◌⊎◌, inl, inr, Text, text_discrete, none, some, ◌∷◌, arith, Has,
  if_pos, if_neg, ℕ_discrete, none-ne-some, eq_of_some, subst,
}
use days_golang_master.Base.Table
use days_golang_master.Base.Table.{Table, get-put, get-delete}
use days_golang_master.GeeCache.SingleFlight.{
  Place, crashed, calling, waiting, running, deleting, returned, Group, start, move, Step, enters,
  joins, leads, fn_returns, fn_panics, deletes, wakes, Steps, here, then,
}
use days_golang_master.GeeCache.SingleFlight.Invariant.{
  Leads, IsTold, Inv, move-cases, moved-Inv, executed-Inv, deletes-Inv,
}

module _ {R : Type 0} where
  -- The keys and calls of two places that both start the call.
  running-injective :
      {k k' : Text} {c c' : ℕ}
      → ◌≡◌ {A = Place R} (running k c) (running k' c')
      → (k ≡ k') × (c ≡ c')
  running-injective e = (cc, cc)

  pub running_injective :
      (key k : Text) (n c : ℕ) → Leads {R = R} (running key n) k c → (key ≡ k) × (n ≡ c)
  running_injective key k n c (inl e) = running-injective e
  running_injective key k n c (inr (r, e)) = cc

  leads-Inv :
      (t : ℕ) (key : Text) (g : Group R)
      → Table.get text_discrete key g.m ≡ none
      → Inv g
      → Inv (record g {
        place = move t (running key g.fresh) g;
        m = Table.put text_discrete key g.fresh g.m;
        fresh = suc g.fresh;
        started = (g.fresh, key) ∷ g.started;
      })
  leads-Inv t key g free inv = record {
    owned = λ u k c h. elim (move-cases t (running key g.fresh) g u) [
      | inl (e, q) ↦
          let (ek, ec) = running_injective key k g.fresh c (subst (λ x. Leads x k c) q h) in
          get-put text_discrete k key g.fresh g.m ∙ (rw (if_pos _ ek) refl ∙ ap some ec)
      | inr (n, q) ↦
          let lead : Leads (g.place u) k c = subst (λ x. Leads x k c) q h in
          elim (text_discrete key k) [
            | yes e ↦ absurd (
                none-ne-some
                  (sym free ∙ (ap (λ x. Table.get text_discrete x g.m) e ∙ inv.owned u k c lead)))
            | no m ↦
                get-put text_discrete k key g.fresh g.m
                ∙ (rw (if_neg _ m) refl ∙ inv.owned u k c lead)
          ]
    ];
    sole = λ u v k k' c h h'. elim (move-cases t (running key g.fresh) g u) [
      | inl (e, q) ↦ elim (move-cases t (running key g.fresh) g v) [
        | inl (e', q') ↦ sym e ∙ e'
        | inr (n', q') ↦ absurd (
            no_old v k' c (subst (λ x. Leads x k' c) q' h')
              (running_injective key k g.fresh c (subst (λ x. Leads x k c) q h)).1)
      ]
      | inr (n, q) ↦ elim (move-cases t (running key g.fresh) g v) [
        | inl (e', q') ↦ absurd (
            no_old u k c (subst (λ x. Leads x k c) q h)
              (running_injective key k' g.fresh c (subst (λ x. Leads x k' c) q' h')).1)
        | inr (n', q') ↦
            inv.sole u v k k' c (subst (λ x. Leads x k c) q h) (subst (λ x. Leads x k' c) q' h')
      ]
    ];
    mapped = λ k c h. elim (text_discrete key k) [
      | yes e ↦ inl (
          pair_eq
            (eq_of_some
              (sym (rw (if_pos _ e) refl) ∙ (sym (get-put text_discrete k key g.fresh g.m) ∙ h)))
            e)
      | no m ↦ inr (
          inv.mapped k c
            (sym (rw (if_neg _ m) refl) ∙ (sym (get-put text_discrete k key g.fresh g.m) ∙ h)))
    ];
    awaited = λ u k c h. elim (move-cases t (running key g.fresh) g u) [
      | inl (e, q) ↦ cc
      | inr (n, q) ↦ inr (inv.awaited u k c (sym q ∙ h))
    ];
    early = λ k c h. elim h [
      | inl e ↦ omega (arith, pair_fst e)
      | inr m ↦ omega (arith, inv.early k c m)
    ];
    one_key = λ k k' c h h'. elim h [
      | inl e ↦ elim h' [
        | inl e' ↦ sym (pair_snd e) ∙ pair_snd e'
        | inr m' ↦ absurd (omega (arith, pair_fst e, inv.early k' c m'))
      ]
      | inr m ↦ elim h' [
        | inl e' ↦ absurd (omega (arith, pair_fst e', inv.early k c m))
        | inr m' ↦ inv.one_key k k' c m m'
      ]
    ];
    honest = λ c r h. let (k, b, x) = inv.honest c r h in (k, inr b, x);
    told = λ u. elim (move-cases t (running key g.fresh) g u) [
      | inl (e, q) ↦ subst (IsTold g.executed) (sym q) ((λ k r h. cc), λ k c r h. cc)
      | inr (n, q) ↦ subst (IsTold g.executed) (sym q) (inv.told u)
    ];
  }
    where
      no_old : (u : ℕ) (k : Text) (c : ℕ) → Leads (g.place u) k c → g.fresh ≡ c → ⊥
      no_old u k c h e = omega (arith, inv.early k c (inv.mapped k c (inv.owned u k c h)))

      pair_eq : {a b : ℕ} {s s' : Text} → a ≡ b → s ≡ s' → ◌≡◌ {A = ℕ × Text} (a, s) (b, s')
      pair_eq e f = cc

      pair_fst : {a b : ℕ} {s s' : Text} → ◌≡◌ {A = ℕ × Text} (a, s) (b, s') → a ≡ b
      pair_fst e = ap (λ p. p.0) e

      pair_snd : {a b : ℕ} {s s' : Text} → ◌≡◌ {A = ℕ × Text} (a, s) (b, s') → s ≡ s'
      pair_snd e = ap (λ p. p.1) e

  start-Inv : Inv {R = R} start
  unfolding Table.get
  start-Inv = record {
    owned = λ t k c h. elim h [ inl e ↦ cc | inr p ↦ let (r, e) = p in cc ];
    sole = λ t u k k' c h h'. elim h [ inl e ↦ cc | inr p ↦ let (r, e) = p in cc ];
    mapped = λ k c h. absurd (none-ne-some h);
    awaited = λ t k c h. cc;
    early = λ k c h. elim h [ ];
    one_key = λ k k' c h h'. elim h [ ];
    honest = λ c r h. absurd (none-ne-some h);
    told = λ t. ((λ k r h. cc), λ k c r h. cc);
  }

  -- A place that is none of a leader, a waiter, or one that returned.
  moved_quietly :
      (t : ℕ) (p : Place R) (g : Group R)
      → (p ≡ crashed) ⊎ ((key : Text) × (p ≡ calling key))
      → Inv g
      → Inv (record g { place = move t p g })
  moved_quietly t p g (inl e) inv =
      moved-Inv t p g (λ k c h. absurd (elim h [ inl q ↦ cc | inr q ↦ let (r, q') = q in cc ]))
        (λ k c h. cc) ((λ k r h. cc), λ k c r h. cc) inv
  moved_quietly t p g (inr (key, e)) inv =
      moved-Inv t p g (λ k c h. absurd (elim h [ inl q ↦ cc | inr q ↦ let (r, q') = q in cc ]))
        (λ k c h. cc) ((λ k r h. cc), λ k c r h. cc) inv

  waiting-injective :
      {key k : Text} {c d : ℕ}
      → ◌≡◌ {A = Place R} (waiting key c) (waiting k d)
      → ◌≡◌ {A = ℕ × Text} (c, key) (d, k)
  waiting-injective e = cc

  deleting-injective :
      {key k : Text} {c d : ℕ} {r q : R}
      → ◌≡◌ {A = Place R} (deleting key c r) (deleting k d q)
      → (◌≡◌ {A = Place R} (running key c) (running k d)) × (◌≡◌ {A = Text × R} (key, r) (k, q))
  deleting-injective e = (cc, cc)

  returned-injective :
      {key k : Text} {r q : R}
      → ◌≡◌ {A = Place R} (returned key r) (returned k q)
      → ◌≡◌ {A = Text × R} (key, r) (k, q)
  returned-injective e = cc

  joins-Inv :
      (t : ℕ) (key : Text) (c : ℕ) (g : Group R)
      → Table.get text_discrete key g.m ≡ some c
      → Inv g
      → Inv (record g { place = move t (waiting key c) g })
  joins-Inv t key c g e inv =
      moved-Inv t (waiting key c) g
        (λ k d h. absurd (elim h [ inl q ↦ cc | inr q ↦ let (r, q') = q in cc ]))
        (λ k d h. subst (λ p. Has p g.started) (waiting-injective h) (inv.mapped key c e))
        ((λ k r h. cc), λ k d r h. cc) inv

  fn_returns-Inv :
      (t : ℕ) (key : Text) (c : ℕ) (r : R) (g : Group R)
      → g.place t ≡ running key c
      → Inv g
      → Inv (record g {
        place = move t (deleting key c r) g;
        results = Table.put ℕ_discrete c r g.results;
        executed = (key, r) ∷ g.executed;
      })
  fn_returns-Inv t key c r g at inv =
      let g' : Group R = record g {
        results = Table.put ℕ_discrete c r g.results;
        executed = (key, r) ∷ g.executed;
      } in
      moved-Inv t (deleting key c r) g'
        (λ k d h. elim h [
          | inl q ↦ cc
          | inr q ↦ let (x, q') = q in inl (at ∙ (deleting-injective q').0)
        ])
        (λ k d h. cc) ((λ k q h. cc), λ k d q h. inl ((deleting-injective h).1))
        (executed-Inv key c r g (inv.mapped key c (inv.owned t key c (inl at))) inv)

  wakes-Inv :
      (t : ℕ) (key : Text) (c : ℕ) (r : R) (g : Group R)
      → g.place t ≡ waiting key c
      → Table.get ℕ_discrete c g.results ≡ some r
      → Inv g
      → Inv (record g { place = move t (returned key r) g })
  wakes-Inv t key c r g at e inv =
      let (k', begun, ran) = inv.honest c r e in
      let same : k' ≡ key = inv.one_key k' key c begun (inv.awaited t key c at) in
      moved-Inv t (returned key r) g
        (λ k d h. absurd (elim h [ inl q ↦ cc | inr q ↦ let (x, q') = q in cc ])) (λ k d h. cc)
        (
          (λ k q h.
              subst (λ p. Has p g.executed) (returned-injective h)
                (subst (λ x. Has (x, r) g.executed) same ran)),
          λ k d q h. cc,
        )
        inv

  pub Step-Inv : {g h : Group R} → Step g h → Inv g → Inv h
  Step-Inv {g = g} (enters t key at) inv = moved_quietly t (calling key) g (inr (key, refl)) inv
  Step-Inv {g = g} (joins t key c at e) inv = joins-Inv t key c g e inv
  Step-Inv {g = g} (leads t key at e) inv = leads-Inv t key g e inv
  Step-Inv {g = g} (fn_returns t key c r at) inv = fn_returns-Inv t key c r g at inv
  Step-Inv {g = g} (fn_panics t key c at) inv = moved_quietly t crashed g (inl refl) inv
  Step-Inv {g = g} (deletes t key c r at) inv = deletes-Inv t key c r g at inv
  Step-Inv {g = g} (wakes t key c r at e) inv = wakes-Inv t key c r g at e inv

  pub Steps-Inv : {g h : Group R} → Steps g h → Inv g → Inv h
  Steps-Inv here inv = inv
  Steps-Inv (then s st) inv = Step-Inv st (Steps-Inv s inv)

  pub reached-Inv : {g : Group R} → Steps start g → Inv g
  reached-Inv s = Steps-Inv s start-Inv
