-- ===== src/GeeCache/Lru/Valid.antt =====
-- The invariant of the cache of lru.go, and what `get` and the `if` of `Add` do under it.
use days_golang_master.Base.{
  eq_of_some, ℕ, suc, ◌≤◌, ◌<◌, ◌≡◌, refl, ap, sym, ◌∙◌, subst, ◌≢◌, Text, text_discrete, Option,
  none, some, List, [], ◌∷◌, arith, length, ite, if_pos, All, Option-cases, inl, inr, word, done,
  add64, sub64, Bool,
}
use days_golang_master.Base.Table
use days_golang_master.GeeCache.Lru.{Element, Cache, cost, new, get, store}
use days_golang_master.GeeCache.Lru.Elements.{
  entries, address_of, value_of, without, IsUnique, total, touch, Found, address_of-Found,
  value_of_absent,
}

module _ {V : Type 0} (size : V → ℕ) where
  -- The map leads each key to its element, no key or address occurs twice, the allocator is ahead
  -- of every address, and `nbytes` is the sum of all costs, wrapped.
  pub record IsValid (c : Cache V) : Type 0 where
    pub index : (k : Text) → Table.get text_discrete k c.cache ≡ address_of k c.ll
    pub unique : IsUnique c.ll
    pub below : All (λ e. e.addr < c.fresh) c.ll
    pub bytes : c.nbytes ≡ word (total size (entries c.ll))

  pub new-IsValid : (max : ℕ) (hook : Bool) → IsValid (new max hook)
  unfolding new Table.get address_of
  new-IsValid max hook = record { index = λ k. refl; unique = tt; below = tt; bytes = refl }

  -- What a get leaves behind, by its result.
  pub record GetResult (k : Text) (c c' : Cache V) (r : Option V) : Type 0 where
    pub valid : IsValid c'
    pub result : r ≡ value_of k (entries c.ll)
    pub miss : r ≡ none → c' ≡ c
    pub hit : (v : V) → r ≡ some v → entries c'.ll ≡ touch k v (entries c.ll)
    pub limit : c'.max_bytes ≡ c.max_bytes
    pub quiet : c'.purged ≡ c.purged

  -- With the element of `k` in front again, every key has the address that it had.
  module _ {k : Text} {a : ℕ} {l : List (Element V)} (u : IsUnique l) (e : address_of k l ≡ some a)
      (f : Found size k a l) (v : V) where
    abbrev in_front : List (Element V)
    in_front =
        record { addr = f.ele.addr; item = record { key = f.ele.item.key; value = v } } ∷ f.rest

    in_front-index : (j : Text) → address_of j in_front ≡ address_of j l
    unfolding address_of
    in_front-index j = ground (arith, f.key, f.addr, f.index j)

    in_front-IsUnique : IsUnique in_front
    in_front-IsUnique = (
      f.index f.ele.item.key ∙ (rw f.key (if_pos (text_discrete k k) refl _ _)),
      rw f.addr f.apart,
      f.unique,
    )

    in_front-below : (n : ℕ) → All (λ x. x.addr < n) l → All (λ x. x.addr < n) in_front
    in_front-below n h = f.below n h

    in_front-entries : entries in_front ≡ touch k v (entries l)
    in_front-entries = ground (arith, f.key, f.kept)

  pub get_lem :
      (k : Text) (c : Cache V)
      → IsValid c
      → (c' : Cache V) × (r : Option V) × (get k c ≡ done (c', r)) × GetResult k c c' r
  unfolding get
  get_lem k c h = elim (Option-cases (Table.get text_discrete k c.cache)) [
    | inl miss ↦ (
      c,
      none,
      ground (arith, miss),
      record {
        valid = h;
        result = sym (value_of_absent k c.ll (sym (h.index k) ∙ miss));
        miss = λ _. refl;
        hit = λ v e. cc;
        limit = refl;
        quiet = refl;
      },
    )
    | inr (a, e) ↦
        let found : address_of k c.ll ≡ some a = sym (h.index k) ∙ e in
        let f = address_of-Found size k a c.ll h.unique found in
        (
          record c { ll = f.ele ∷ f.rest },
          some f.ele.item.value,
          ground (arith, e, f.out),
          record {
            valid = record {
              index = λ j. h.index j ∙ sym (in_front-index h.unique found f f.ele.item.value j);
              unique = in_front-IsUnique h.unique found f f.ele.item.value;
              below = in_front-below h.unique found f f.ele.item.value c.fresh h.below;
              bytes = h.bytes ∙ ap word f.weight;
            };
            result = sym f.value;
            miss = λ e. cc;
            hit = λ v q.
                subst (λ w. entries (f.ele ∷ f.rest) ≡ touch k w (entries c.ll)) (eq_of_some q)
                  (in_front-entries h.unique found f f.ele.item.value);
            limit = refl;
            quiet = refl;
          },
        )
  ]

  -- What the `if` of Add leaves behind.
  pub record StoreResult (k : Text) (v : V) (c c' : Cache V) : Type 0 where
    pub valid : IsValid c'
    pub front : entries c'.ll ≡ touch k v (entries c.ll)
    pub limit : c'.max_bytes ≡ c.max_bytes
    pub quiet : c'.purged ≡ c.purged
    pub hook : c'.on_evicted ≡ c.on_evicted
    pub longer : length c'.ll ≤ suc (length c.ll)

  store_hit :
      (k : Text) (v : V) (c : Cache V) (a : ℕ)
      → IsValid c
      → Table.get text_discrete k c.cache ≡ some a
      → (c' : Cache V) × (store size k v c ≡ done c') × StoreResult k v c c'
  unfolding store add64 sub64
  store_hit k v c a h e =
      let found : address_of k c.ll ≡ some a = sym (h.index k) ∙ e in
      let f = address_of-Found size k a c.ll h.unique found in
      (
        record c {
          ll = in_front h.unique found f v;
          nbytes = add64 c.nbytes (sub64 (word (size v)) (size f.ele.item.value));
        },
        ground (arith, e, f.out),
        record {
          valid = record {
            index = λ j. h.index j ∙ sym (in_front-index h.unique found f v j);
            unique = in_front-IsUnique h.unique found f v;
            below = in_front-below h.unique found f v c.fresh h.below;
            bytes = omega (arith, h.bytes, f.weight);
          };
          front = in_front-entries h.unique found f v;
          limit = refl;
          quiet = refl;
          hook = refl;
          longer = omega (arith, f.smaller);
        },
      )

  absent_without :
      (k : Text) (l : List (Element V)) → address_of k l ≡ none → without k (entries l) ≡ entries l
  unfolding without address_of
  absent_without k [] h = refl
  absent_without k (e ∷ l) h = ground (arith, absent_without k l)

  apart_of_below :
      (n : ℕ) (l : List (Element V)) → All (λ x. x.addr < n) l → All (λ x. x.addr ≢ n) l
  apart_of_below n [] h = tt
  apart_of_below n (e ∷ l) (p, h) = (omega arith, apart_of_below n l h)

  below-suc : (n : ℕ) (l : List (Element V)) → All (λ x. x.addr < n) l → All (λ x. x.addr < suc n) l
  below-suc n [] h = tt
  below-suc n (e ∷ l) (p, h) = (omega arith, below-suc n l h)

  store_miss :
      (k : Text) (v : V) (c : Cache V)
      → IsValid c
      → Table.get text_discrete k c.cache ≡ none
      → (c' : Cache V) × (store size k v c ≡ done c') × StoreResult k v c c'
  unfolding store add64 address_of
  store_miss k v c h e =
      let absent : address_of k c.ll ≡ none = sym (h.index k) ∙ e in
      (
        record c {
          ll = record { addr = c.fresh; item = record { key = k; value = v } } ∷ c.ll;
          cache = Table.put text_discrete k c.fresh c.cache;
          nbytes = add64 c.nbytes (cost size (record { key = k; value = v }));
          fresh = suc c.fresh;
        },
        ground (arith, e),
        record {
          valid = record {
            index = λ j.
                Table.get-put text_discrete j k c.fresh c.cache
                ∙ ap (λ o. ite (text_discrete k j) (some c.fresh) o) (h.index j);
            unique = (absent, apart_of_below c.fresh c.ll h.below, h.unique);
            below = (omega arith, below-suc c.fresh c.ll h.below);
            bytes = omega (arith, h.bytes);
          };
          front = ap (◌∷◌ (record { key = k; value = v })) (sym (absent_without k c.ll absent));
          limit = refl;
          quiet = refl;
          hook = refl;
          longer = omega arith;
        },
      )

  -- The `if` of Add never panics on a valid cache: the entry comes to the front, and the rest stays.
  pub store_lem :
      (k : Text) (v : V) (c : Cache V)
      → IsValid c
      → (c' : Cache V) × (store size k v c ≡ done c') × StoreResult k v c c'
  store_lem k v c h = elim (Option-cases (Table.get text_discrete k c.cache)) [
    | inl e ↦ store_miss k v c h e
    | inr (a, e) ↦ store_hit k v c a h e
  ]
