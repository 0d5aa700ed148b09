-- ===== src/GeeRpc/XClient/Clients.antt =====
-- Which client gee-rpc/day7-registry/xclient/xclient.go uses for an address, and which it closes.
use days_golang_master.Base.{
  ℕ, ◌≡◌, ◌≢◌, refl, sym, ap, ◌∙◌, ◌⊎◌, inl, inr, Text, text_discrete, none, some, ◌∷◌, arith, Bool,
  true, false, if_pos, if_neg, Option-cases, Bool-cases, none-ne-some, eq_of_some, subst,
}
use days_golang_master.Base.Table
use days_golang_master.Base.Table.{Table, get-put, get-delete}
use days_golang_master.GeeRpc.XClient.{XClient, Dialled, client_of, dial_failed, forget, dial}

client_of-injective : {a b : ℕ} → client_of a ≡ client_of b → a ≡ b
client_of-injective h = cc

Dialled-cases : (r : Dialled) → ((c : ℕ) × (r ≡ client_of c)) ⊎ ((e : ℕ) × (r ≡ dial_failed e))
Dialled-cases (client_of c) = inl (c, refl)
Dialled-cases (dial_failed e) = inr (e, refl)

-- What dial does at an address.
pub record DialResult (is_available : ℕ → Bool) (x_dial : Text → Dialled) (addr : Text)
    (xc xc' : XClient) (result : Dialled) : Type 0 where
  -- the client was kept and is available, or XDial made it
  pub fresh_or_kept :
      ((c : ℕ) × (result ≡ client_of c)
        × (is_available c ≡ true)
        × (Table.get text_discrete addr xc.clients ≡ some c)
        × (xc'.closed ≡ xc.closed))
      ⊎ ((result ≡ x_dial addr)
          × ((c : ℕ)
              → Table.get text_discrete addr xc.clients ≡ some c
              → (is_available c ≡ false) × (xc'.closed ≡ c ∷ xc.closed)))
  -- a client that is returned is the one that is kept now
  pub is_kept : (c : ℕ) → result ≡ client_of c → Table.get text_discrete addr xc'.clients ≡ some c
  -- after an error none is kept
  pub none_kept : (e : ℕ) → result ≡ dial_failed e → Table.get text_discrete addr xc'.clients ≡ none
  pub others_kept :
      (a : Text)
      → addr ≢ a
      → Table.get text_discrete a xc'.clients ≡ Table.get text_discrete a xc.clients

module _ (is_available : ℕ → Bool) (x_dial : Text → Dialled) (addr : Text) (xc : XClient) where
  abbrev Result : XClient × Dialled → Type 0
  Result p = DialResult is_available x_dial addr xc p.0 p.1

  dial_kept :
      (c : ℕ)
      → Table.get text_discrete addr xc.clients ≡ some c
      → is_available c ≡ true
      → dial is_available x_dial addr xc ≡ (xc, client_of c)
  unfolding dial forget
  dial_kept c e k = ground arith

  -- The client that dial gets from XDial, once none is kept in `rest`.
  dial_anew :
      (rest : XClient)
      → forget is_available addr xc ≡ (rest, none)
      → (c : ℕ) → x_dial addr ≡ client_of c
      → dial is_available x_dial addr xc
        ≡ (record rest { clients = Table.put text_discrete addr c rest.clients }, client_of c)
  unfolding dial
  dial_anew rest f c e = ground arith

  dial_fails :
      (rest : XClient)
      → forget is_available addr xc ≡ (rest, none)
      → (e : ℕ) → x_dial addr ≡ dial_failed e
      → dial is_available x_dial addr xc ≡ (rest, dial_failed e)
  unfolding dial
  dial_fails rest f e k = ground arith

  -- What `rest` is after a client was forgotten, or none was kept.
  abbrev IsForgotten : XClient → Type 0
  IsForgotten rest =
      (Table.get text_discrete addr rest.clients ≡ none)
      × ((a : Text)
          → addr ≢ a
          → Table.get text_discrete a rest.clients ≡ Table.get text_discrete a xc.clients)
      × ((c : ℕ)
          → Table.get text_discrete addr xc.clients ≡ some c
          → (is_available c ≡ false) × (rest.closed ≡ c ∷ xc.closed))

  get-put_same :
      (c : ℕ) (m : Table Text ℕ)
      → Table.get text_discrete addr (Table.put text_discrete addr c m) ≡ some c
  get-put_same c m = get-put text_discrete addr addr c m ∙ rw (if_pos _ refl) refl

  get-put_other :
      (a : Text) (c : ℕ) (m : Table Text ℕ)
      → addr ≢ a
      → Table.get text_discrete a (Table.put text_discrete addr c m) ≡ Table.get text_discrete a m
  get-put_other a c m n = get-put text_discrete a addr c m ∙ rw (if_neg _ n) refl

  forgotten-Result :
      (rest : XClient)
      → forget is_available addr xc ≡ (rest, none)
      → IsForgotten rest
      → Result (dial is_available x_dial addr xc)
  forgotten-Result rest f (gone, others, old) = elim (Dialled-cases (x_dial addr)) [
    | inl (c, e) ↦ subst Result (sym (dial_anew rest f c e)) (record {
      fresh_or_kept = inr (sym e, old);
      is_kept = λ c' h. rw (client_of-injective h) (get-put_same c' rest.clients);
      none_kept = λ e' h. cc;
      others_kept = λ a n. get-put_other a c rest.clients n ∙ others a n;
    })
    | inr (x, e) ↦ subst Result (sym (dial_fails rest f x e)) (record {
      fresh_or_kept = inr (sym e, old);
      is_kept = λ c' h. cc;
      none_kept = λ e' h. gone;
      others_kept = others;
    })
  ]

  -- dial returns the client that is kept for the address if it is available, and otherwise what XDial
  -- returns, after the kept client, if any, was closed; a client that it returns is the one that is
  -- kept, after an error none is, and the other addresses keep theirs.
  pub dial_lem :
      DialResult is_available x_dial addr xc
        (dial is_available x_dial addr xc).0
        (dial is_available x_dial addr xc).1
  unfolding forget
  dial_lem = elim (Option-cases (Table.get text_discrete addr xc.clients)) [
    | inl e ↦
        forgotten-Result xc (ground arith)
          (e, (λ a n. refl), λ c k. absurd (none-ne-some (sym e ∙ k)))
    | inr (c, e) ↦ elim (Bool-cases (is_available c)) [
      | inl k ↦ subst Result (sym (dial_kept c e k)) (record {
        fresh_or_kept = inl (c, refl, k, e, refl);
        is_kept = λ c' h. rw (client_of-injective h) at e;
        none_kept = λ e' h. cc;
        others_kept = λ a n. refl;
      })
      | inr k ↦
          forgotten-Result
            (record xc {
              closed = c ∷ xc.closed;
              clients = Table.delete text_discrete addr xc.clients;
            })
            (ground arith)
            (
              get-delete text_discrete addr addr xc.clients ∙ rw (if_pos _ refl) refl,
              (λ a n. get-delete text_discrete a addr xc.clients ∙ rw (if_neg _ n) refl),
              λ c' h. (
                rw (eq_of_some (sym e ∙ h)) at k,
                ap (λ x. x ∷ xc.closed) (eq_of_some (sym e ∙ h)),
              ),
            )
    ]
  ]
