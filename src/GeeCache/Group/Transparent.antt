-- ===== src/GeeCache/Group/Transparent.antt =====
-- A group of gee-cache/day7-proto-buf/geecache answers what its getter would.
use days_golang_master.Base.{
  ℕ, suc, ◌<◌, ◌^◌, ◌≡◌, ◌≢◌, refl, sym, ap, ◌∙◌, ◌⊎◌, inl, inr, Text, text_discrete, Option, none,
  some, List, [], ◌∷◌, ◌++◌, Run, done, arith, length, All, if_pos, if_neg, Option-cases, subst,
  none-ne-some, eq_of_some,
}
use days_golang_master.GeeCache.Lru.{Cache, Entry}
use days_golang_master.GeeCache.Lru.Elements.{entries, value_of, without, touch, total}
use days_golang_master.GeeCache.Lru.Valid.{IsValid, get_lem}
use days_golang_master.GeeCache.Lru.Adding.{add-Added}
use days_golang_master.GeeCache.Group.{
  Got, got, key_required, failed, MainCache, lru_of, len, add, get, Peers, Group, populate_cache,
  get_locally, get_from_peer, load, get_view,
}

Got-cases :
    (o : Got) → ((v : Text) × (o ≡ got v)) ⊎ ((o ≡ key_required) ⊎ ((n : ℕ) × (o ≡ failed n)))
Got-cases (got v) = inl (v, refl)
Got-cases key_required = inr (inl refl)
Got-cases (failed n) = inr (inr (n, refl))

module _ (getter : Text → Got) where
  -- Every entry is what the getter answers for its key.
  abbrev pub IsFaithful : List (Entry Text) → Type 0
  IsFaithful l = All (λ e. getter e.key ≡ got e.value) l

  value_of-IsFaithful :
      (k v : Text) (l : List (Entry Text)) → IsFaithful l → value_of k l ≡ some v → getter k ≡ got v
  unfolding value_of
  value_of-IsFaithful k v [] h e = absurd (none-ne-some e)
  value_of-IsFaithful k v (x ∷ l) (p, h) e = elim (text_discrete x.key k) [
    | yes q ↦ ap getter (sym q) ∙ (p ∙ ap got (eq_of_some (rw (if_pos _ q) at e)))
    | no q ↦ value_of-IsFaithful k v l h (rw (if_neg _ q) at e)
  ]

  without-IsFaithful : (k : Text) (l : List (Entry Text)) → IsFaithful l → IsFaithful (without k l)
  unfolding without
  without-IsFaithful k [] h = tt
  without-IsFaithful k (x ∷ l) (p, h) = elim (text_discrete x.key k) [
    | yes q ↦ rw (if_pos _ q) (without-IsFaithful k l h)
    | no q ↦ rw (if_neg _ q) (p, without-IsFaithful k l h)
  ]

  front-IsFaithful : (l r : List (Entry Text)) → IsFaithful (l ++ r) → IsFaithful l
  front-IsFaithful [] r h = tt
  front-IsFaithful (x ∷ l) r (p, h) = (p, front-IsFaithful l r h)

  -- An lru that is valid, holds what the getter answers, and has a limit that is not negative.
  pub record IsGood (l : Cache Text) : Type 0 where
    pub valid : IsValid len l
    pub faithful : IsFaithful (entries l.ll)
    pub limit : l.max_bytes < 2 ^ 63

  -- What get finds is what the getter answers, the cache stays good, and where nothing is found it
  -- stays as it was.
  pub record Looked (key : Text) (c : MainCache) : Type 0 where
    pub after : MainCache
    pub view : Option Text
    pub runs : get key c ≡ done (after, view)
    pub good : IsGood (lru_of after)
    pub right : (v : Text) → view ≡ some v → getter key ≡ got v
    pub miss : view ≡ none → after ≡ c

  lru_of-some : (c : MainCache) (l : Cache Text) → c.lru ≡ some l → lru_of c ≡ l
  lru_of-some c l e = ground arith

  Looked-some :
      (key : Text) (c : MainCache) (l : Cache Text) → c.lru ≡ some l → IsGood l → Looked key c
  unfolding get
  Looked-some key c l e h =
      let (l', v, run, r) = get_lem len key l h.valid in
      record {
        after = record c { lru = some l' };
        view = v;
        runs = ground (arith, run);
        good = record {
          valid = r.valid;
          faithful = elim (Option-cases v) [
            | inl n ↦ subst (λ x. IsFaithful (entries x.ll)) (sym (r.miss n)) h.faithful
            | inr (w, s) ↦ subst IsFaithful (sym (r.hit w s)) (
              value_of-IsFaithful key w (entries l.ll) h.faithful (sym r.result ∙ s),
              without-IsFaithful key (entries l.ll) h.faithful,
            )
          ];
          limit = omega (arith, r.limit, h.limit);
        };
        right = λ w s. value_of-IsFaithful key w (entries l.ll) h.faithful (sym r.result ∙ s);
        miss = λ n. ground (arith, r.miss n);
      }

  get-Looked : (key : Text) (c : MainCache) → IsGood (lru_of c) → Looked key c
  unfolding get
  get-Looked key c h = elim (Option-cases c.lru) [
    | inl e ↦ record {
      after = c;
      view = none;
      runs = ground arith;
      good = h;
      right = λ v k. absurd (none-ne-some k);
      miss = λ _. refl;
    }
    | inr (l, e) ↦ Looked-some key c l e (subst IsGood (lru_of-some c l e) h)
  ]

  -- Adding what the getter answers keeps the cache good.
  add-IsGood :
      (key v : Text) (c : MainCache)
      → IsGood (lru_of c)
      → total len (touch key v (entries (lru_of c).ll)) < 2 ^ 63
      → getter key ≡ got v
      → (c' : MainCache) × (add key v c ≡ done c') × IsGood (lru_of c')
  unfolding add
  add-IsGood key v c h small e =
      let (l, dropped, run, a) =
        add-Added len (suc (suc (suc (length (lru_of c).ll)))) key v (lru_of c) h.valid h.limit
          small (omega arith) in
      (
        record c { lru = some l },
        ground (arith, run),
        record {
          valid = a.valid;
          faithful = front-IsFaithful (entries l.ll) dropped (
              subst IsFaithful a.split
                (e, without-IsFaithful key (entries (lru_of c).ll) h.faithful));
          limit = omega (arith, a.limit, h.limit);
        },
      )

-- A peer that answers with a value answers what the getter would.
abbrev pub AreFaithful : Group → Option Peers → Type 0
AreFaithful g none = Unit
AreFaithful g (some p) =
    (key : Text) (peer : p.Peer) (v : Text)
    → p.pick_peer key ≡ some peer
    → p.peer_get peer g.name key ≡ got v
    → g.getter key ≡ got v

-- There is room for the value that the getter answers.
abbrev pub HasRoom : Text → Group → Type 0
HasRoom key g =
    (v : Text)
    → g.getter key ≡ got v
    → total len (touch key v (entries (lru_of g.main_cache).ll)) < 2 ^ 63

-- A group after an operation: the same but for its memory, which is good.
pub record Kept (g g' : Group) : Type 1 where
  pub getter : g'.getter ≡ g.getter
  pub peers : g'.peers ≡ g.peers
  pub name : g'.name ≡ g.name
  pub good : IsGood g.getter (lru_of g'.main_cache)

get_locally-transparent :
    (key : Text) (g : Group)
    → IsGood g.getter (lru_of g.main_cache)
    → HasRoom key g
    → (g' : Group) × (get_locally key g ≡ done (g', g.getter key)) × Kept g g'
unfolding get_locally populate_cache
get_locally-transparent key g h room = elim (Got-cases (g.getter key)) [
  | inl (v, e) ↦
      let (c, run, good) = add-IsGood g.getter key v g.main_cache h (room v e) e in
      (
        record g { main_cache = c },
        ground (arith, run),
        record { getter = refl; peers = refl; name = refl; good = good },
      )
  | inr (inl e) ↦ (g, ground arith, record { getter = refl; peers = refl; name = refl; good = h })
  | inr (inr (n, e)) ↦
      (g, ground arith, record { getter = refl; peers = refl; name = refl; good = h })
]

module _ (key : Text) (g : Group) (h : IsGood g.getter (lru_of g.main_cache))
    (room : HasRoom key g) where
  -- What load does without a peer, or where the peer fails.
  abbrev Loaded : Run (Group × Got) → Type 1
  Loaded r = (g' : Group) × (r ≡ done (g', g.getter key)) × Kept g g'

  load_at_peer :
      (p : Peers) (peer : p.Peer)
      → AreFaithful g (some p)
      → g.peers ≡ some p
      → p.pick_peer key ≡ some peer
      → Loaded (load key g)
  unfolding load get_from_peer
  load_at_peer p peer f e picked = elim (Got-cases (p.peer_get peer g.name key)) [
    | inl (v, a) ↦
        let true_value : g.getter key ≡ got v = f key peer v picked a in
        (g, ground arith, record { getter = refl; peers = refl; name = refl; good = h })
    | inr (inl a) ↦
        let (g', run, k) = get_locally-transparent key g h room in (g', ground (arith, run), k)
    | inr (inr (n, a)) ↦
        let (g', run, k) = get_locally-transparent key g h room in (g', ground (arith, run), k)
  ]

  load-transparent : AreFaithful g g.peers → Loaded (load key g)
  unfolding load
  load-transparent f = elim (Option-cases g.peers) [
    | inl e ↦
        let (g', run, k) = get_locally-transparent key g h room in (g', ground (arith, run), k)
    | inr (p, e) ↦ elim (Option-cases (p.pick_peer key)) [
      | inl n ↦
          let (g', run, k) = get_locally-transparent key g h room in (g', ground (arith, run), k)
      | inr (peer, picked) ↦ load_at_peer p peer (subst (AreFaithful g) e f) e picked
    ]
  ]

AreFaithful-memory :
    (g : Group) (c : MainCache) (o : Option Peers)
    → AreFaithful g o
    → AreFaithful (record g { main_cache = c }) o
AreFaithful-memory g c none f = tt
AreFaithful-memory g c (some p) f = f

-- What get_view returns, by what the memory has.
module _ (key : Text) (g : Group) (n : key ≢ []) (c : MainCache) where
  get_view_hit :
      (v : Text)
      → get key g.main_cache ≡ done (c, some v)
      → get_view key g ≡ done (record g { main_cache = c }, got v)
  unfolding get_view
  get_view_hit v e = ground arith

  get_view_miss :
      get key g.main_cache ≡ done (c, none)
      → get_view key g ≡ load key (record g { main_cache = c })
  unfolding get_view
  get_view_miss e = ground arith

-- While there is room for the value, a group whose memory is good and whose peers answer, if they do,
-- what the getter would, answers every key but the empty one exactly as its getter, from its memory,
-- from a peer, or from the getter itself; and its memory stays good.
pub get_view-transparent :
    (key : Text) (g : Group)
    → key ≢ []
    → IsGood g.getter (lru_of g.main_cache)
    → AreFaithful g g.peers
    → HasRoom key g
    → (g' : Group) × (get_view key g ≡ done (g', g.getter key)) × Kept g g'
get_view-transparent key g n h f room =
    let look = get-Looked g.getter key g.main_cache h in
    let g₁ : Group = record g { main_cache = look.after } in
    elim (Option-cases look.view) [
      | inr (v, e) ↦ (
        g₁,
        get_view_hit key g n look.after v (look.runs ∙ ap (λ o. done (look.after, o)) e)
            ∙ ap (λ o. done (g₁, o)) (sym (look.right v e)),
        record { getter = refl; peers = refl; name = refl; good = look.good },
      )
      | inl e ↦
          let (g', run, k) =
            load-transparent key g₁ look.good
              (λ v a.
                subst (λ c. total len (touch key v (entries (lru_of c).ll)) < 2 ^ 63)
                  (sym (look.miss e)) (room v a))
              (AreFaithful-memory g look.after g.peers f) in
          (
            g',
            get_view_miss key g n look.after (look.runs ∙ ap (λ o. done (look.after, o)) e) ∙ run,
            record { getter = k.getter; peers = k.peers; name = k.name; good = k.good },
          )
    ]
