-- ===== src/GeeCache/Lru/Elements.antt =====
-- The list of elements as an association list: its keys, its addresses, and what `take_out` finds.
use days_golang_master.Base.{
  none-ne-some, ℕ, suc, ◌+◌, ◌<◌, ◌≡◌, refl, sym, ◌∙◌, subst, ◌≢◌, Text, text_discrete, Option,
  none, some, List, [], ◌∷◌, map, arith, length, ite, if_neg, All,
}
use days_golang_master.GeeCache.Lru.{Entry, Element, take_out, cost}

module _ {V : Type 0} where
  -- What the list holds, without the addresses: the entries, most recent first.
  abbrev pub entries : List (Element V) → List (Entry V)
  entries l = map (λ e. e.item) l

  -- The address of the element with a key.
  unfoldable pub address_of : Text → List (Element V) → Option ℕ
  address_of k [] = none
  address_of k (e ∷ l) = ite (text_discrete e.item.key k) (some e.addr) (address_of k l)

  -- The value stored under a key.
  unfoldable pub value_of : Text → List (Entry V) → Option V
  value_of k [] = none
  value_of k (e ∷ l) = ite (text_discrete e.key k) (some e.value) (value_of k l)

  -- The list without the entries of a key.
  unfoldable pub without : Text → List (Entry V) → List (Entry V)
  without k [] = []
  without k (e ∷ l) = let rest = without k l in ite (text_discrete e.key k) rest (e ∷ rest)

  -- The entry with a new value, moved to the front.
  abbrev pub touch : Text → V → List (Entry V) → List (Entry V)
  touch k v l = record { key = k; value = v } ∷ without k l

  -- Keys occur once, and addresses too.
  abbrev pub IsUnique : List (Element V) → Type 0
  IsUnique [] = Unit
  IsUnique (e ∷ l) = (address_of e.item.key l ≡ none) × All (λ x. x.addr ≢ e.addr) l × IsUnique l

  -- The bytes of all entries, not wrapped.
  module _ (size : V → ℕ) where
    abbrev pub total : List (Entry V) → ℕ
    total [] = 0
    total (e ∷ l) = cost size e + total l

  -- What `take_out` finds at the address that the map gives for a key.
  pub record Found (size : V → ℕ) (k : Text) (a : ℕ) (l : List (Element V)) : Type 0 where
    pub ele : Element V
    pub rest : List (Element V)
    pub out : take_out a l ≡ some (ele, rest)
    pub key : ele.item.key ≡ k
    pub addr : ele.addr ≡ a
    pub kept : entries rest ≡ without k (entries l)
    pub value : value_of k (entries l) ≡ some ele.item.value
    pub apart : All (λ x. x.addr ≢ a) rest
    pub unique : IsUnique rest
    pub index : (j : Text) → address_of j rest ≡ ite (text_discrete k j) none (address_of j l)
    pub weight : total size (entries l) ≡ cost size ele.item + total size (entries rest)
    pub smaller : length l ≡ suc (length rest)
    pub avoid : (b : ℕ) → All (λ x. x.addr ≢ b) l → (ele.addr ≢ b) × All (λ x. x.addr ≢ b) rest
    pub below : (n : ℕ) → All (λ x. x.addr < n) l → (ele.addr < n) × All (λ x. x.addr < n) rest

  without_absent :
      (k : Text) (l : List (Element V)) → address_of k l ≡ none → without k (entries l) ≡ entries l
  unfolding address_of without
  without_absent k [] h = refl
  without_absent k (e ∷ l) h = ground (arith, without_absent k l)

  Found-here :
      (size : V → ℕ) (k : Text) (e : Element V) (l : List (Element V))
      → IsUnique (e ∷ l)
      → e.item.key ≡ k
      → Found size k e.addr (e ∷ l)
  unfolding take_out address_of value_of without
  Found-here size k e l (absent, apart, unique) same = record {
    ele = e;
    rest = l;
    out = ground arith;
    key = same;
    addr = refl;
    kept = ground (arith, without_absent k l);
    value = ground arith;
    apart = apart;
    unique = unique;
    index = λ j. ground arith;
    weight = refl;
    smaller = refl;
    avoid = λ b h. h;
    below = λ n h. h;
  }

  Found-there :
      (size : V → ℕ) (k : Text) (a : ℕ) (e : Element V) (l : List (Element V))
      → IsUnique (e ∷ l)
      → e.item.key ≢ k
      → Found size k a l
      → Found size k a (e ∷ l)
  unfolding take_out address_of value_of without
  Found-there size k a e l (absent, apart, unique) other f =
      let ne : f.ele.addr ≢ e.addr = (f.avoid e.addr apart).0 in
      let apart' = (f.avoid e.addr apart).1 in
      record {
        ele = f.ele;
        rest = e ∷ f.rest;
        out = ground (arith, f.out, f.addr);
        key = f.key;
        addr = f.addr;
        kept = ground (arith, f.kept);
        value = ground (arith, f.value);
        apart = (λ q. ne (f.addr ∙ sym q), f.apart);
        unique = (ground (arith, f.index e.item.key), apart', f.unique);
        index = λ j. ground (arith, f.index j);
        weight = omega (arith, f.weight);
        smaller = omega (arith, f.smaller);
        avoid = λ b h. ((f.avoid b h.1).0, (h.0, (f.avoid b h.1).1));
        below = λ n h. ((f.below n h.1).0, (h.0, (f.below n h.1).1));
      }

  -- On a list with unique keys and addresses, the address of a key leads to its element.
  pub address_of-Found :
      (size : V → ℕ) (k : Text) (a : ℕ) (l : List (Element V))
      → IsUnique l
      → address_of k l ≡ some a
      → Found size k a l
  unfolding address_of
  address_of-Found size k a [] u h = absurd (none-ne-some h)
  address_of-Found size k a (e ∷ l) u h = elim (text_discrete e.item.key k) [
    | yes p ↦
        let q : e.addr ≡ a = ground arith in
        subst (λ b. Found size k b (e ∷ l)) q (Found-here size k e l u p)
    | no p ↦ Found-there size k a e l u p (address_of-Found size k a l u.2 (rw (if_neg _ p) at h))
  ]

  -- The map and the list of entries agree on which keys are absent.
  pub value_of_absent :
      (k : Text) (l : List (Element V)) → address_of k l ≡ none → value_of k (entries l) ≡ none
  unfolding address_of value_of
  value_of_absent k [] h = refl
  value_of_absent k (e ∷ l) h = ground (arith, value_of_absent k l)
