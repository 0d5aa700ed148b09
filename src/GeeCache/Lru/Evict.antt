-- ===== src/GeeCache/Lru/Evict.antt =====
-- The loop of `Add` in lru.go: what `RemoveOldest` takes away, when the loop ends, what is left.
use days_golang_master.Base.{
  ℕ, zero, suc, ◌+◌, ◌≤◌, ◌<◌, ◌≡◌, refl, ap, sym, ◌∙◌, subst, ◌≢◌, ◌⊎◌, Text, text_discrete, none,
  some, List, [], ◌∷◌, ◌++◌, arith, length, ite, All, inl, inr, word, ◌^◌, done, sub64, true, false,
  Bool-cases, append_assoc, append-nil, length-append,
}
use days_golang_master.Base.Table
use days_golang_master.GeeCache.Lru.{
  Entry, Element, Cache, take_back, cost, remove_oldest, is_over, evict,
}
use days_golang_master.GeeCache.Lru.Elements.{entries, address_of, IsUnique, total}
use days_golang_master.GeeCache.Lru.Valid.{IsValid}

-- A list is empty, or it is a list and its last element.
pub take_back-cases {ℓ} :
    {A : Type ℓ} (l : List A)
    → ((l ≡ []) × (take_back l ≡ none))
      ⊎ ((x : A) × (r : List A) × (take_back l ≡ some (x, r)) × (l ≡ r ++ x ∷ []))
unfolding take_back
take_back-cases [] = inl (refl, refl)
take_back-cases (e ∷ l) = elim (take_back-cases l) [
  | inl (empty, h) ↦ inr (e, [], ground (arith, h), ap (◌∷◌ e) empty)
  | inr (x, r, h, q) ↦ inr (x, e ∷ r, ground (arith, h), ap (◌∷◌ e) q)
]

module _ {V : Type 0} where
  entries-append : (l r : List (Element V)) → entries (l ++ r) ≡ entries l ++ entries r
  entries-append [] r = refl
  entries-append (e ∷ l) r = ap (◌∷◌ e.item) (entries-append l r)

  address_of-last :
      (r : List (Element V)) (x : Element V) → address_of x.item.key (r ++ x ∷ []) ≢ none
  unfolding address_of
  address_of-last [] x = ground arith
  address_of-last (e ∷ r) x = ground (arith, address_of-last r x)

  -- Dropping the last element drops its key from the index, and no other.
  address_of-back :
      (j : Text) (r : List (Element V)) (x : Element V)
      → IsUnique (r ++ x ∷ [])
      → address_of j r ≡ ite (text_discrete x.item.key j) none (address_of j (r ++ x ∷ []))
  unfolding address_of
  address_of-back j [] x u = ground arith
  address_of-back j (e ∷ r) x (absent, _, u) =
      let other : e.item.key ≢ x.item.key =
        λ q. address_of-last r x (subst (λ k. address_of k (r ++ x ∷ []) ≡ none) q absent) in
      ground (arith, address_of-back j r x u, other)

  All-front {ℓ} :
      (P : Element V → Type ℓ) (r : List (Element V)) (x : Element V)
      → All P (r ++ x ∷ [])
      → All P r
  All-front P [] x h = tt
  All-front P (e ∷ r) x (p, h) = (p, All-front P r x h)

  address_of-absent_front :
      (k : Text) (r : List (Element V)) (x : Element V)
      → address_of k (r ++ x ∷ []) ≡ none
      → address_of k r ≡ none
  unfolding address_of
  address_of-absent_front k [] x h = refl
  address_of-absent_front k (e ∷ r) x h = ground (arith, address_of-absent_front k r x)

  IsUnique-front : (r : List (Element V)) (x : Element V) → IsUnique (r ++ x ∷ []) → IsUnique r
  IsUnique-front [] x u = tt
  IsUnique-front (e ∷ r) x (absent, apart, u) = (
    address_of-absent_front e.item.key r x absent,
    All-front (λ y. y.addr ≢ e.addr) r x apart,
    IsUnique-front r x u,
  )

module _ {V : Type 0} (size : V → ℕ) where
  pub total-append : (l r : List (Entry V)) → total size (l ++ r) ≡ total size l + total size r
  total-append [] r = omega arith
  total-append (e ∷ l) r = omega (arith, total-append l r)

  -- What RemoveOldest does to a valid cache that is not empty.
  pub record Removed (c c' : Cache V) : Type 0 where
    pub oldest : Entry V
    pub valid : IsValid size c'
    pub split : entries c.ll ≡ entries c'.ll ++ oldest ∷ []
    pub limit : c'.max_bytes ≡ c.max_bytes
    pub hook : c'.on_evicted ≡ c.on_evicted
    pub noted : c'.purged ≡ (elim c.on_evicted [ true ↦ oldest ∷ c.purged | false ↦ c.purged ])
    pub shorter : length c.ll ≡ suc (length c'.ll)

  pub remove_oldest-Removed :
      (c : Cache V) (x : Element V) (r : List (Element V))
      → IsValid size c
      → take_back c.ll ≡ some (x, r)
      → c.ll ≡ r ++ x ∷ []
      → Removed c (remove_oldest size c)
  unfolding remove_oldest sub64
  remove_oldest-Removed c x r h e q = subst (Removed c) (sym step) (record {
    oldest = x.item;
    valid = record {
      index = λ j.
          Table.get-delete text_discrete j x.item.key c.cache
          ∙ ap (λ o. ite (text_discrete x.item.key j) none o) (h.index j ∙ ap (address_of j) q)
          ∙ sym (address_of-back j r x (subst IsUnique q h.unique));
      unique = IsUnique-front r x (subst IsUnique q h.unique);
      below = All-front (λ e. e.addr < c.fresh) r x (subst (All (λ e. e.addr < c.fresh)) q h.below);
      bytes = bytes;
    };
    split = split;
    limit = refl;
    hook = refl;
    noted = refl;
    shorter = ap length q ∙ (omega (arith, length-append r (x ∷ [])));
  })
    where
      split : entries c.ll ≡ entries r ++ x.item ∷ []
      split = ap entries q ∙ entries-append r (x ∷ [])

      after : Cache V
      after = record c {
        ll = r;
        cache = Table.delete text_discrete x.item.key c.cache;
        nbytes = sub64 c.nbytes (cost size x.item);
        purged = elim c.on_evicted [ true ↦ x.item ∷ c.purged | false ↦ c.purged ];
      }

      step : remove_oldest size c ≡ after
      step = rw (e, remove_oldest)

      bytes : sub64 c.nbytes (cost size x.item) ≡ word (total size (entries r))
      bytes =
          let weight : total size (entries c.ll) ≡ total size (entries r) + cost size x.item =
            ap (total size) split ∙ total-append (entries r) (x.item ∷ []) ∙ omega arith in
          omega (arith, h.bytes, weight)

  -- No count comes near the sign bit of an int64.
  pub record IsSmall (c : Cache V) : Type 0 where
    pub limit_small : c.max_bytes < 2 ^ 63
    pub total_small : total size (entries c.ll) < 2 ^ 63

  is_over-true :
      (c : Cache V)
      → IsValid size c
      → IsSmall c
      → is_over size c ≡ true
      → (c.max_bytes ≢ 0) × (c.max_bytes < total size (entries c.ll))
  unfolding is_over
  is_over-true c h s e = ground (arith, h.bytes, s.limit_small, s.total_small)

  is_over-false :
      (c : Cache V)
      → IsValid size c
      → IsSmall c
      → is_over size c ≡ false
      → (c.max_bytes ≡ 0) ⊎ (total size (entries c.ll) ≤ c.max_bytes)
  unfolding is_over
  is_over-false c h s e = ground (arith, h.bytes, s.limit_small, s.total_small)

  -- What the loop leaves: a front part of the list that fits the limit, and no more was dropped
  -- than that needed. The callback saw the dropped entries, the oldest first.
  pub record Trimmed (c c' : Cache V) (dropped : List (Entry V)) : Type 0 where
    pub valid : IsValid size c'
    pub split : entries c.ll ≡ entries c'.ll ++ dropped
    pub fits : (c.max_bytes ≡ 0) ⊎ (total size (entries c'.ll) ≤ c.max_bytes)
    pub needed :
        (dropped ≡ [])
        ⊎ ((d : Entry V) × (ds : List (Entry V)) × (dropped ≡ d ∷ ds)
            × (c.max_bytes ≢ 0)
            × (c.max_bytes < total size (entries c'.ll) + cost size d))
    pub noted : c'.purged ≡ (elim c.on_evicted [ true ↦ dropped ++ c.purged | false ↦ c.purged ])
    pub limit : c'.max_bytes ≡ c.max_bytes

  Trimmed-later :
      (c d c' : Cache V) (dropped : List (Entry V)) (r : Removed c d)
      → c.max_bytes ≢ 0
      → c.max_bytes < total size (entries c.ll)
      → Trimmed d c' dropped
      → Trimmed c c' (dropped ++ r.oldest ∷ [])
  Trimmed-later c d c' dropped r nonzero over t = record {
    valid = t.valid;
    split =
        r.split
        ∙ ap (λ l. l ++ r.oldest ∷ []) t.split
        ∙ append_assoc (entries c'.ll) dropped (r.oldest ∷ []);
    fits = ground (arith, t.fits, r.limit);
    needed = elim t.needed [
      | inl empty ↦ inr (
        r.oldest,
        [],
        ap (λ l. l ++ r.oldest ∷ []) empty,
        nonzero,
        (let same : entries d.ll ≡ entries c'.ll =
              t.split ∙ ap (λ l. entries c'.ll ++ l) empty ∙ append-nil _ in
            let weight : total size (entries c.ll)
                ≡ total size (entries c'.ll) + (cost size r.oldest + 0) =
              ap (total size) r.split
              ∙ total-append (entries d.ll) (r.oldest ∷ [])
              ∙ ap (λ l. total size l + (cost size r.oldest + 0)) same in
            omega (arith, weight, over)),
      )
      | inr (x, xs, q, _, more) ↦ inr (
        x,
        xs ++ r.oldest ∷ [],
        ap (λ l. l ++ r.oldest ∷ []) q,
        nonzero,
        omega (arith, more, r.limit),
      )
    ];
    noted = ground (arith, t.noted, r.noted, r.hook, append_assoc dropped (r.oldest ∷ []) c.purged);
    limit = t.limit ∙ r.limit;
  }

  -- With nothing left to drop the count is zero, so the loop has ended before that.
  evict_done :
      (rounds : ℕ) (c : Cache V)
      → IsValid size c
      → IsSmall c
      → is_over size c ≡ false
      → (evict size (suc rounds) c ≡ done c) × Trimmed c c []
  unfolding evict
  evict_done rounds c h s e = (
    ground (arith, e),
    record {
      valid = h;
      split = sym (append-nil _);
      fits = is_over-false c h s e;
      needed = inl refl;
      noted = elim (Bool-cases c.on_evicted) [ inl b ↦ rw b | inr b ↦ rw b ];
      limit = refl;
    },
  )

  pub evict_step :
      (rounds : ℕ) (c : Cache V)
      → is_over size c ≡ true
      → evict size (suc rounds) c ≡ evict size rounds (remove_oldest size c)
  unfolding evict
  evict_step rounds c e = ground (arith, e)

  -- More rounds than elements are enough, and the loop leaves a trimmed cache.
  pub evict-Trimmed :
      (rounds : ℕ) (c : Cache V)
      → IsValid size c
      → IsSmall c
      → length c.ll < rounds
      → (c' : Cache V) × (dropped : List (Entry V)) × (evict size rounds c ≡ done c')
        × Trimmed c c' dropped
  evict-Trimmed zero c h s lt = absurd (omega arith)
  evict-Trimmed (suc rounds) c h s lt = elim (Bool-cases (is_over size c)) [
    | inr e ↦ let (run, t) = evict_done rounds c h s e in (c, [], run, t)
    | inl e ↦
        let (nonzero, over) = is_over-true c h s e in
        elim (take_back-cases c.ll) [
          | inl (empty, _) ↦ absurd (omega (arith, over, ap (λ l. total size (entries l)) empty))
          | inr (x, r, back, q) ↦
              let d = remove_oldest size c in
              let rem : Removed c d = remove_oldest-Removed c x r h back q in
              let small : IsSmall d = record {
                limit_small = omega (arith, rem.limit, s.limit_small);
                total_small = omega (
                  arith,
                  s.total_small,
                  ap (total size) rem.split,
                  total-append (entries d.ll) (rem.oldest ∷ []),
                );
              } in
              let (c', dropped, run, t) =
                evict-Trimmed rounds d rem.valid small (omega (arith, rem.shorter)) in
              (
                c',
                dropped ++ rem.oldest ∷ [],
                evict_step rounds c e ∙ run,
                Trimmed-later c d c' dropped rem nonzero over t,
              )
        ]
  ]
