-- ===== src/GeeCache/Lru/Adding.antt =====
-- `Add` of lru.go as a whole: the `if` and the loop, from a valid cache.
use days_golang_master.Base.{
  ℕ, zero, suc, ◌+◌, ◌≤◌, ◌<◌, ◌≡◌, refl, ap, sym, ◌∙◌, ◌⊎◌, ◌≢◌, Text, none, some, List, [], ◌∷◌,
  ◌++◌, arith, length, inl, inr, ◌^◌, done, spin, true, false,
}
use days_golang_master.GeeCache.Lru.{
  Entry, Cache, take_back, cost, remove_oldest, is_over, evict, add, get,
}
use days_golang_master.GeeCache.Lru.Elements.{entries, value_of, total, touch}
use days_golang_master.GeeCache.Lru.Valid.{IsValid, store_lem, get_lem}
use days_golang_master.GeeCache.Lru.Evict.{
  IsSmall, evict-Trimmed, Removed, remove_oldest-Removed, take_back-cases, total-append, evict_step,
}

cons-injective {ℓ} : {A : Type ℓ} {x y : A} {xs ys : List A} → x ∷ xs ≡ y ∷ ys → x ≡ y
cons-injective e = cc

module _ {V : Type 0} (size : V → ℕ) where
  -- What Add leaves behind: the entry is the most recent, what no longer fits is dropped from the
  -- old end, and the callback saw exactly that.
  pub record Added (k : Text) (v : V) (c c' : Cache V) (dropped : List (Entry V)) : Type 0 where
    pub valid : IsValid size c'
    pub split : touch k v (entries c.ll) ≡ entries c'.ll ++ dropped
    pub fits : (c.max_bytes ≡ 0) ⊎ (total size (entries c'.ll) ≤ c.max_bytes)
    pub needed :
        (dropped ≡ [])
        ⊎ ((d : Entry V) × (ds : List (Entry V)) × (dropped ≡ d ∷ ds)
            × (c.max_bytes ≢ 0)
            × (c.max_bytes < total size (entries c'.ll) + cost size d))
    pub noted : c'.purged ≡ (elim c.on_evicted [ true ↦ dropped ++ c.purged | false ↦ c.purged ])
    pub limit : c'.max_bytes ≡ c.max_bytes

  module _ (rounds : ℕ) (k : Text) (v : V) (c : Cache V) (h : IsValid size c) where
    -- On a valid cache with a limit that is not negative, and while the bytes fit an int64, Add
    -- returns, with more rounds than elements and one. The cache then holds a front part of the
    -- list with the entry moved to its front: one that fits the limit, with nothing dropped
    -- that could have stayed. The callback, if there is one, was called on what was dropped.
    pub add-Added :
        c.max_bytes < 2 ^ 63
        → total size (touch k v (entries c.ll)) < 2 ^ 63
        → suc (length c.ll) < rounds
        → (c' : Cache V) × (dropped : List (Entry V)) × (add size rounds k v c ≡ done c')
          × Added k v c c' dropped
    unfolding add
    add-Added limit fits enough =
        let (d, stored, s) = store_lem size k v c h in
        let small : IsSmall size d = record {
          limit_small = omega (arith, s.limit, limit);
          total_small = omega (arith, ap (total size) s.front, fits);
        } in
        let (c', dropped, run, t) =
          evict-Trimmed size rounds d s.valid small (omega (arith, s.longer, enough)) in
        (
          c',
          dropped,
          ground (arith, stored, run),
          record {
            valid = t.valid;
            split = sym s.front ∙ t.split;
            fits = ground (arith, t.fits, s.limit);
            needed = elim t.needed [
              | inl e ↦ inl e
              | inr (x, xs, e, nz, more) ↦
                  inr (x, xs, e, ground (arith, nz, s.limit), omega (arith, more, s.limit))
            ];
            noted = ground (arith, t.noted, s.hook, s.quiet);
            limit = t.limit ∙ s.limit;
          },
        )

    front_value :
        (l r : List (Entry V))
        → touch k v (entries c.ll) ≡ l ++ r
        → (l ≢ [])
        → value_of k l ≡ some v
    unfolding value_of
    front_value [] r e n = absurd (n refl)
    front_value (x ∷ l) r e n = ground (arith, e)

    too_small :
        (c' : Cache V) (dropped : List (Entry V))
        → Added k v c c' dropped
        → entries c'.ll ≡ []
        → ¬ ((c.max_bytes ≡ 0) ⊎ (cost size (record { key = k; value = v }) ≤ c.max_bytes))
    too_small c' dropped a empty room =
        let all : touch k v (entries c.ll) ≡ dropped = a.split ∙ ap (λ l. l ++ dropped) empty in
        elim a.needed [
          | inl none_dropped ↦ cc
          | inr (d, ds, q, nonzero, more) ↦
              let first : record { key = k; value = v } ≡ d = cons-injective (all ∙ q) in
              omega (arith, more, nonzero, room, ap (λ l. total size l) empty, ap (cost size) first)
        ]

    -- If the limit allows the entry by itself, a Get right after the Add returns its value.
    pub get-add :
        c.max_bytes < 2 ^ 63
        → total size (touch k v (entries c.ll)) < 2 ^ 63
        → suc (length c.ll) < rounds
        → (c.max_bytes ≡ 0) ⊎ (cost size (record { key = k; value = v }) ≤ c.max_bytes)
        → (c' : Cache V) × (c'' : Cache V) × (add size rounds k v c ≡ done c')
          × (get k c' ≡ done (c'', some v))
    get-add limit fits enough room =
        let (c', dropped, run, a) = add-Added limit fits enough in
        let (c'', r, got, g) = get_lem size k c' a.valid in
        let present : entries c'.ll ≢ [] = λ empty. too_small c' dropped a empty room in
        (
          c',
          c'',
          run,
          got
              ∙ ap (λ o. done (c'', o))
                  (g.result ∙ front_value (entries c'.ll) dropped a.split present),
        )

  -- A negative limit, one with the sign bit set.
  stuck :
      (c : Cache V)
      → IsValid size c
      → 2 ^ 63 ≤ c.max_bytes
      → c.max_bytes < 2 ^ 64
      → total size (entries c.ll) < 2 ^ 63
      → is_over size c ≡ true
  unfolding is_over
  stuck c h neg range small = ground (arith, h.bytes)

  remove_oldest_empty : (c : Cache V) → take_back c.ll ≡ none → remove_oldest size c ≡ c
  unfolding remove_oldest
  remove_oldest_empty c e = ground (arith, e)

  evict-spin :
      (rounds : ℕ) (c : Cache V)
      → IsValid size c
      → 2 ^ 63 ≤ c.max_bytes
      → c.max_bytes < 2 ^ 64
      → total size (entries c.ll) < 2 ^ 63
      → evict size rounds c ≡ spin
  unfolding evict
  evict-spin zero c h neg range small = refl
  evict-spin (suc rounds) c h neg range small =
      evict_step size rounds c (stuck c h neg range small) ∙ (elim (take_back-cases c.ll) [
        | inl (_, none_left) ↦
            ap (evict size rounds) (remove_oldest_empty c none_left)
            ∙ evict-spin rounds c h neg range small
        | inr (x, r, back, q) ↦
            let d = remove_oldest size c in
            let rem : Removed size c d = remove_oldest-Removed size c x r h back q in
            evict-spin rounds d rem.valid (omega (arith, rem.limit, neg))
              (omega (arith, rem.limit, range))
              (omega (
                arith,
                small,
                ap (total size) rem.split,
                total-append size (entries d.ll) (rem.oldest ∷ []),
              ))
      ])

  -- With a negative limit Add never returns, however many rounds the loop is given: once the cache
  -- is empty, RemoveOldest changes nothing and the test still holds.
  pub add-spin :
      (rounds : ℕ) (k : Text) (v : V) (c : Cache V)
      → IsValid size c
      → 2 ^ 63 ≤ c.max_bytes
      → c.max_bytes < 2 ^ 64
      → total size (touch k v (entries c.ll)) < 2 ^ 63
      → add size rounds k v c ≡ spin
  unfolding add
  add-spin rounds k v c h neg range small =
      let (d, stored, s) = store_lem size k v c h in
      ground (
        arith,
        stored,
        evict-spin rounds d s.valid (omega (arith, s.limit, neg)) (omega (arith, s.limit, range))
            (omega (arith, ap (total size) s.front, small)),
      )
