-- ===== src/GeeRpc/Discovery/Fair.antt =====
-- The round robin of gee-rpc/day7-registry/xclient/discovery.go: consecutive calls of Get go round
-- the servers in their order.
use native.Mathlib.Nat.{mod-lt, mod-add-mod, mod-eq_of_lt, mod-eq-sub-mod}
use days_golang_master.Base.{
  ℕ, zero, suc, ◌+◌, ◌-◌, ◌%◌, ◌≤◌, ◌<◌, ◌≡◌, refl, sym, ap, ◌∙◌, Text, some, List, [], ◌∷◌, arith,
  Has, Has-index, get_elem?-Has, get_elem?-lt, length, get_elem?, Run, done, ◌>>=◌, dec_le,
  none-ne-some, eq_of_some,
}
use days_golang_master.GeeRpc.Discovery.{Servers, Answer, answered, round_robin_select, get}

-- The answers of consecutive calls.
abbrev pub get_many : ℕ → Servers → Run (Servers × List (Answer Text))
get_many zero d = done (d, [])
get_many (suc k) d =
    get 0 round_robin_select d
    >>= (λ (d', a). get_many k d' >>= (λ (d'', answers). done (d'', a ∷ answers)))

-- A call answers with the server at the index, and moves the index to the next.
get-round_robin :
    (xs : List Text) (i : ℕ) (s : Text)
    → get_elem? xs (i % length xs) ≡ some s
    → get 0 round_robin_select (record { servers = xs; index = i })
      ≡ done (record { servers = xs; index = (i + 1) % length xs }, answered s)
unfolding get
get-round_robin [] i s e = absurd (none-ne-some e)
get-round_robin (x ∷ xs) i s e = ground (arith, e)

-- The answers of `k` calls, from an index on.
abbrev pub Answers : ℕ → Servers → Servers → List (Answer Text) → Type 0
Answers k d d' answers =
    (d'.servers ≡ d.servers)
    × (length answers ≡ k)
    × ((j : ℕ)
        → j < k
        → (s : Text) × (get_elem? d.servers ((d.index + j) % length d.servers) ≡ some s)
          × (get_elem? answers j ≡ some (answered s)))

-- The index that counts is its remainder.
position-next : (n i j : ℕ) → ((i + 1) % n + j) % n ≡ (i + suc j) % n
position-next n i j = mod-add-mod (i + 1) n j ∙ ap (λ m. m % n) (omega arith)

module _ (xs : List Text) (some_server : 0 < length xs) where
  server_at : (i : ℕ) → (s : Text) × (get_elem? xs (i % length xs) ≡ some s)
  server_at i = get_elem?-lt xs (i % length xs) (mod-lt i some_server)

  -- Consecutive calls of Get with the round robin all succeed, and the call with number `j` answers
  -- with the server `j` places after the index, round the list.
  pub get_many-Answers :
      (k i : ℕ)
      → (d' : Servers) × (answers : List (Answer Text)) × (get_many k
            (record { servers = xs; index = i })
          ≡ done (d', answers))
        × Answers k (record { servers = xs; index = i }) d' answers
  get_many-Answers zero i =
      (record { servers = xs; index = i }, [], refl, (refl, refl, λ j h. absurd (omega arith)))
  get_many-Answers (suc k) i =
      let (s, e) = server_at i in
      let (d', answers, run, (same, size, each)) = get_many-Answers k ((i + 1) % length xs) in
      (
        d',
        answered s ∷ answers,
        rw (get-round_robin xs i s e) (rw run refl),
        (same, ap suc size, next_each xs i k s e answers each),
      )
    where
      next_each :
          (xs : List Text) (i k : ℕ) (s : Text)
          → get_elem? xs (i % length xs) ≡ some s
          → (answers : List (Answer Text))
          → ((j : ℕ)
              → j < k
              → (u : Text) × (get_elem? xs (((i + 1) % length xs + j) % length xs) ≡ some u)
                × (get_elem? answers j ≡ some (answered u)))
          → (j : ℕ) → j < suc k
          → (u : Text) × (get_elem? xs ((i + j) % length xs) ≡ some u)
            × (get_elem? (answered s ∷ answers) j ≡ some (answered u))
      next_each xs i k s e answers each zero h =
          (s, ap (λ m. get_elem? xs (m % length xs)) (omega arith) ∙ e, refl)
      next_each xs i k s e answers each (suc j) h =
          let (u, p, q) = each j (omega arith) in
          (u, ap (get_elem? xs) (sym (position-next (length xs) i j)) ∙ p, q)

  -- Each index is the remainder of one of `length xs` consecutive positions.
  position-of :
      (start i : ℕ) → i < length xs → (j : ℕ) × (j < length xs) × ((start + j) % length xs ≡ i)
  position-of start i h =
      let n : ℕ = length xs in
      let r : ℕ = start % n in
      let lt : r < n = mod-lt start some_server in
      let past : n ≤ i + n = omega arith in
      elim (dec_le r i) [
        | yes le ↦ (
          i - r,
          omega arith,
          sym (mod-add-mod start n (i - r)) ∙ (ap (λ m. m % n) (omega arith) ∙ mod-eq_of_lt h),
        )
        | no gt ↦ (
          i + n - r,
          omega arith,
          sym (mod-add-mod start n (i + n - r))
              ∙ (ap (λ m. m % n) (omega arith)
                  ∙ (mod-eq-sub-mod past ∙ (ap (λ m. m % n) (omega arith) ∙ mod-eq_of_lt h))),
        )
      ]

  -- Wherever the index starts, as many consecutive calls of Get with the round robin as there are
  -- servers all return, and answer with every server.
  pub get_many-visits :
      (i : ℕ) (s : Text)
      → Has s xs
      → (d' : Servers) × (answers : List (Answer Text)) × (get_many
            (length xs)
            (record { servers = xs; index = i })
          ≡ done (d', answers))
        × (length answers ≡ length xs)
        × Has (answered s) answers
  get_many-visits i s h =
      let (p, lt, e) = Has-index s xs h in
      let (j, le, at) = position-of i p lt in
      let (d', answers, run, (same, size, each)) = get_many-Answers (length xs) i in
      let (u, q, r) = each j le in
      (
        d',
        answers,
        run,
        size,
        get_elem?-Has (answered s) answers j
            (r ∙ ap (λ v. some (answered v)) (eq_of_some (sym q ∙ (ap (get_elem? xs) at ∙ e)))),
      )
