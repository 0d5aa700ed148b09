-- ===== src/GeeCache/ConsistentHash/Successor.antt =====
-- The point of the ring that Get picks: the first one at or after the hash of the key, or the first
-- of all where the ring wraps around.
use days_golang_master.Base.{
  ℕ, ◌%◌, ◌≤◌, ◌<◌, ◌≡◌, ap, ◌∙◌, ◌⊎◌, inl, inr, Text, some, List, done, length, get_elem?, true,
  false, dec_lt, arith, Has, Has-index, get_elem?-Has, get_elem?-lt,
}
use days_golang_master.Base.Search
use days_golang_master.Base.Search.{IsSorted, IsSorted-le, IsMonotone, IsFirst, search-IsFirst}
use days_golang_master.GeeCache.ConsistentHash.{Ring, at_or_after, owner, get}

-- `p` is the clockwise successor of `h` among the points.
pub record IsSuccessor (h : ℕ) (points : List ℕ) (p : ℕ) : Type 0 where
  pub listed : Has p points
  pub closest :
      ((h ≤ p) × ((q : ℕ) → Has q points → h ≤ q → p ≤ q))
      ⊎ (((q : ℕ) → Has q points → q < h) × ((q : ℕ) → Has q points → p ≤ q))

at_or_after-true :
    (keys : List ℕ) (h i p : ℕ) → get_elem? keys i ≡ some p → at_or_after keys h i ≡ true → h ≤ p
unfolding at_or_after
at_or_after-true keys h i p e t = ground arith

at_or_after-false :
    (keys : List ℕ) (h i p : ℕ) → get_elem? keys i ≡ some p → at_or_after keys h i ≡ false → p < h
unfolding at_or_after
at_or_after-false keys h i p e t = ground arith

at_or_after_of_le :
    (keys : List ℕ) (h i p : ℕ) → get_elem? keys i ≡ some p → h ≤ p → at_or_after keys h i ≡ true
unfolding at_or_after
at_or_after_of_le keys h i p e t = ground arith

module _ (keys : List ℕ) (sorted : IsSorted keys) (h : ℕ) where
  monotone : IsMonotone (length keys) (at_or_after keys h)
  monotone a b le lt t =
      let (y, ey) = get_elem?-lt keys b lt in
      let (x, ex) = get_elem?-lt keys a (omega arith) in
      let below = IsSorted-le keys a b x y sorted le ex ey in
      at_or_after_of_le keys h b y ey (omega (arith, below, at_or_after-true keys h a x ex t))

  abbrev pub first : ℕ
  first = Search.search (length keys) (at_or_after keys h)

  first-IsFirst : IsFirst (length keys) (at_or_after keys h) first
  first-IsFirst = search-IsFirst (length keys) (at_or_after keys h) monotone

  found-inside :
      (p : ℕ) → first < length keys → get_elem? keys first ≡ some p → IsSuccessor h keys p
  found-inside p lt e = record {
    listed = get_elem?-Has p keys first e;
    closest = inl (
      at_or_after-true keys h first p e (first-IsFirst.2 first (omega arith) lt),
      λ q m le.
          let (j, j_lt, ej) = Has-index q keys m in
          elim (dec_lt j first) [
            | yes before ↦
                absurd
                  (omega (arith, le, at_or_after-false keys h j q ej (first-IsFirst.1 j before)))
            | no after ↦ IsSorted-le keys first j p q sorted (omega arith) e ej
          ],
    );
  }

  found-around : (p : ℕ) → first ≡ length keys → get_elem? keys 0 ≡ some p → IsSuccessor h keys p
  found-around p past e = record {
    listed = get_elem?-Has p keys 0 e;
    closest = inr (
      λ q m.
          let (j, j_lt, ej) = Has-index q keys m in
          at_or_after-false keys h j q ej (first-IsFirst.1 j (omega arith)),
      λ q m.
          let (j, j_lt, ej) = Has-index q keys m in
          IsSorted-le keys 0 j p q sorted (omega arith) e ej,
    );
  }

  -- The index that Get reads is in bounds, and the point there is the successor.
  pub index-IsSuccessor :
      0 < length keys
      → (p : ℕ) × (get_elem? keys (first % length keys) ≡ some p) × IsSuccessor h keys p
  index-IsSuccessor some_key = elim (dec_lt first (length keys)) [
    | yes lt ↦
        let (p, e) = get_elem?-lt keys first lt in
        (p, ap (get_elem? keys) (grind arith) ∙ e, found-inside p lt e)
    | no past ↦
        let (p, e) = get_elem?-lt keys 0 some_key in
        let at_end : first ≡ length keys = omega (arith, first-IsFirst.0) in
        (p, ap (get_elem? keys) (grind arith) ∙ e, found-around p at_end e)
  ]

-- Successors are unique.
pub IsSuccessor-unique :
    (h : ℕ) (points : List ℕ) (p q : ℕ) → IsSuccessor h points p → IsSuccessor h points q → p ≡ q
IsSuccessor-unique h points p q s t = elim s.closest [
  | inl (hp, p_least) ↦ elim t.closest [
    | inl (hq, q_least) ↦ omega (arith, p_least q t.listed hq, q_least p s.listed hp)
    | inr (q_all, _) ↦ absurd (omega (arith, q_all p s.listed))
  ]
  | inr (p_all, p_least) ↦ elim t.closest [
    | inl (hq, _) ↦ absurd (omega (arith, p_all q t.listed))
    | inr (_, q_least) ↦ omega (arith, p_least q t.listed, q_least p s.listed)
  ]
]

-- A successor among more points that is one of the fewer is the successor among the fewer.
pub IsSuccessor-restrict :
    (h : ℕ) (fewer more : List ℕ) (p : ℕ)
    → ((q : ℕ) → Has q fewer → Has q more)
    → Has p fewer
    → IsSuccessor h more p
    → IsSuccessor h fewer p
IsSuccessor-restrict h fewer more p sub m s = record {
  listed = m;
  closest = elim s.closest [
    | inl (le, least) ↦ inl (le, λ q mq. least q (sub q mq))
    | inr (all, least) ↦ inr (λ q mq. all q (sub q mq), λ q mq. least q (sub q mq))
  ];
}

-- On a sorted ring that is not empty Get returns the node of the successor of the key's hash.
pub get-IsSuccessor :
    (key : Text) (m : Ring)
    → IsSorted m.keys
    → 0 < length m.keys
    → (p : ℕ) × IsSuccessor (m.hash key) m.keys p × (get key m ≡ done (owner m.hash_map p))
unfolding get
get-IsSuccessor key m sorted some_key =
    let (p, e, s) = index-IsSuccessor m.keys sorted (m.hash key) some_key in
    (p, s, ground (arith, e, some_key))
