-- ===== src/GeeCache/SingleFlight/Invariant.antt =====
-- What holds between the steps of gee-cache/day7-proto-buf/geecache/singleflight.
use days_golang_master.Base.{
  ℕ, ◌<◌, ◌≡◌, ◌≢◌, refl, sym, ap, ◌∙◌, ◌⊎◌, inl, inr, Text, text_discrete, some, List, ◌∷◌, Has,
  if_pos, if_neg, ℕ_discrete, none-ne-some, eq_of_some, subst,
}
use days_golang_master.Base.Table
use days_golang_master.Base.Table.{Table, get-put, get-delete}
use days_golang_master.GeeCache.SingleFlight.{
  Place, waiting, running, deleting, returned, Group, move,
}

module _ {R : Type 0} where
  -- The goroutine executes fn, or has yet to delete the key.
  abbrev pub Leads : Place R → Text → ℕ → Type 0
  Leads p key c = (p ≡ running key c) ⊎ ((r : R) × (p ≡ deleting key c r))

  -- The place says of a result only what an execution for its key has returned.
  abbrev pub IsTold : List (Text × R) → Place R → Type 0
  IsTold l p =
      ((key : Text) (r : R) → p ≡ returned key r → Has (key, r) l)
      × ((key : Text) (c : ℕ) (r : R) → p ≡ deleting key c r → Has (key, r) l)

  pub record Inv (g : Group R) : Type 0 where
    -- a leader's call is the one in the map, and no other goroutine leads it
    pub owned :
        (t : ℕ) (key : Text) (c : ℕ)
        → Leads (g.place t) key c
        → Table.get text_discrete key g.m ≡ some c
    pub sole :
        (t u : ℕ) (k k' : Text) (c : ℕ) → Leads (g.place t) k c → Leads (g.place u) k' c → t ≡ u
    -- a call in the map, and one that is waited for, was started with that key
    pub mapped :
        (key : Text) (c : ℕ) → Table.get text_discrete key g.m ≡ some c → Has (c, key) g.started
    pub awaited : (t : ℕ) (key : Text) (c : ℕ) → g.place t ≡ waiting key c → Has (c, key) g.started
    pub early : (key : Text) (c : ℕ) → Has (c, key) g.started → c < g.fresh
    pub one_key : (k k' : Text) (c : ℕ) → Has (c, k) g.started → Has (c, k') g.started → k ≡ k'
    -- results come from executions for the key of the call
    pub honest :
        (c : ℕ) (r : R)
        → Table.get ℕ_discrete c g.results ≡ some r
        → (key : Text) × Has (c, key) g.started × Has (key, r) g.executed
    pub told : (t : ℕ) → IsTold g.executed (g.place t)

  pub move-cases :
      (t : ℕ) (p : Place R) (g : Group R) (u : ℕ)
      → ((t ≡ u) × (move t p g u ≡ p)) ⊎ ((t ≢ u) × (move t p g u ≡ g.place u))
  move-cases t p g u = elim (ℕ_discrete t u) [
    | yes e ↦ inl (e, rw (if_pos _ e) refl)
    | no n ↦ inr (n, rw (if_neg _ n) refl)
  ]

  -- What a goroutine that moved leads, another goroutine leads or it did before.
  pub led :
      (t : ℕ) (p : Place R) (g : Group R) (u : ℕ) (k : Text) (c : ℕ)
      → (Leads p k c → Leads (g.place t) k c)
      → Leads (move t p g u) k c
      → Leads (g.place u) k c
  led t p g u k c back h = elim (move-cases t p g u) [
    | inl (e, q) ↦ subst (λ x. Leads (g.place x) k c) e (back (subst (λ x. Leads x k c) q h))
    | inr (n, q) ↦ subst (λ x. Leads x k c) q h
  ]

  -- A move that makes no leader, and tells only what is known.
  pub moved-Inv :
      (t : ℕ) (p : Place R) (g : Group R)
      → ((k : Text) (c : ℕ) → Leads p k c → Leads (g.place t) k c)
      → ((k : Text) (c : ℕ) → p ≡ waiting k c → Has (c, k) g.started)
      → IsTold g.executed p
      → Inv g
      → Inv (record g { place = move t p g })
  moved-Inv t p g back wait tell inv = record {
    owned = λ u k c h. inv.owned u k c (led t p g u k c (back k c) h);
    sole = λ u v k k' c h h'.
        inv.sole u v k k' c (led t p g u k c (back k c) h) (led t p g v k' c (back k' c) h');
    mapped = inv.mapped;
    awaited = λ u k c h. elim (move-cases t p g u) [
      | inl (e, q) ↦ wait k c (sym q ∙ h)
      | inr (n, q) ↦ inv.awaited u k c (sym q ∙ h)
    ];
    early = inv.early;
    one_key = inv.one_key;
    honest = inv.honest;
    told = λ u. elim (move-cases t p g u) [
      | inl (e, q) ↦ subst (IsTold g.executed) (sym q) tell
      | inr (n, q) ↦ subst (IsTold g.executed) (sym q) (inv.told u)
    ];
  }

  -- An execution for the key of a call that was started sets its result.
  pub executed-Inv :
      (key : Text) (c : ℕ) (r : R) (g : Group R)
      → Has (c, key) g.started
      → Inv g
      → Inv (record g {
        results = Table.put ℕ_discrete c r g.results;
        executed = (key, r) ∷ g.executed;
      })
  executed-Inv key c r g begun inv = record {
    owned = inv.owned;
    sole = inv.sole;
    mapped = inv.mapped;
    awaited = inv.awaited;
    early = inv.early;
    one_key = inv.one_key;
    honest = λ d q h. elim (ℕ_discrete c d) [
      | yes e ↦
          let same : r ≡ q =
            eq_of_some
              (sym (rw (if_pos _ e) refl) ∙ (sym (get-put ℕ_discrete d c r g.results) ∙ h)) in
          (key, subst (λ x. Has (x, key) g.started) e begun, inl (ap (λ x. (key, x)) same))
      | no n ↦
          let old : Table.get ℕ_discrete d g.results ≡ some q =
            sym (rw (if_neg _ n) refl) ∙ (sym (get-put ℕ_discrete d c r g.results) ∙ h) in
          let (k, b, x) = inv.honest d q old in (k, b, inr x)
    ];
    told = λ t. ((λ k q h. inr ((inv.told t).0 k q h)), λ k d q h. inr ((inv.told t).1 k d q h));
  }

  no_lead_returned : {key : Text} {r : R} (k : Text) (c : ℕ) → Leads (returned key r) k c → ⊥
  no_lead_returned k c (inl e) = cc
  no_lead_returned k c (inr (q, e)) = cc

  pub deletes-Inv :
      (t : ℕ) (key : Text) (c : ℕ) (r : R) (g : Group R)
      → g.place t ≡ deleting key c r
      → Inv g
      → Inv (record g { place = move t (returned key r) g; m = Table.delete text_discrete key g.m })
  deletes-Inv t key c r g at inv = record {
    owned = λ u k d h. elim (move-cases t (returned key r) g u) [
      | inl (e, q) ↦ absurd (no_lead_returned k d (subst (λ x. Leads x k d) q h))
      | inr (n, q) ↦
          let lead : Leads (g.place u) k d = subst (λ x. Leads x k d) q h in
          elim (text_discrete key k) [
            | yes e ↦ absurd (
                n (
                  inv.sole t u key k c (inr (r, at)) (
                    subst (Leads (g.place u) k)
                      (eq_of_some (
                        sym (inv.owned u k d lead)
                        ∙ (ap (λ x. Table.get text_discrete x g.m) (sym e)
                            ∙ inv.owned t key c (inr (r, at)))))
                      lead)))
            | no m ↦
                get-delete text_discrete k key g.m ∙ (rw (if_neg _ m) refl ∙ inv.owned u k d lead)
          ]
    ];
    sole = λ u v k k' d h h'.
        inv.sole u v k k' d
          (led t (returned key r) g u k d (λ l. absurd (no_lead_returned k d l)) h)
          (led t (returned key r) g v k' d (λ l. absurd (no_lead_returned k' d l)) h');
    mapped = λ k d h. elim (text_discrete key k) [
      | yes e ↦ absurd (
          none-ne-some
            (sym (rw (if_pos _ e) refl) ∙ (sym (get-delete text_discrete k key g.m) ∙ h)))
      | no m ↦
          inv.mapped k d
            (sym (rw (if_neg _ m) refl) ∙ (sym (get-delete text_discrete k key g.m) ∙ h))
    ];
    awaited = λ u k d h. elim (move-cases t (returned key r) g u) [
      | inl (e, q) ↦ cc
      | inr (n, q) ↦ inv.awaited u k d (sym q ∙ h)
    ];
    early = inv.early;
    one_key = inv.one_key;
    honest = inv.honest;
    told = λ u. elim (move-cases t (returned key r) g u) [
      | inl (e, q) ↦
          subst (IsTold g.executed) (sym q)
            ((λ k q' h. returned_told key k r q' h ((inv.told t).1 key c r at)), λ k d q' h. cc)
      | inr (n, q) ↦ subst (IsTold g.executed) (sym q) (inv.told u)
    ];
  }
    where
      both :
          {key k : Text} {r q : R}
          → ◌≡◌ {A = Place R} (returned key r) (returned k q)
          → ◌≡◌ {A = Text × R} (key, r) (k, q)
      both e = cc

      returned_told :
          (key k : Text) (r q : R)
          → ◌≡◌ {A = Place R} (returned key r) (returned k q)
          → Has (key, r) g.executed
          → Has (k, q) g.executed
      returned_told key k r q e h = subst (λ p. Has p g.executed) (both e) h
