-- ===== src/GeeBolt/Node/Refine.antt =====
-- `put` and `del` of node.go, with their binary search and their slices, are the insertion and the
-- removal of the specification.
use days_golang_master.Base.{
  ℕ, zero, suc, ◌<◌, ◌≡◌, refl, ap, sym, ◌∙◌, subst, inl, inr, Text, text_discrete, none, some,
  List, [], ◌∷◌, ◌++◌, length, get_elem?, get_elem?-lt, get_elem?-Has, take, drop, ite, All-Has,
  Bool, true, false, arith, eq_of_some, none-ne-some, if◌then◌else◌, Bool-cases, dec_lt,
}
use days_golang_master.Base.Search
use days_golang_master.Base.Search.{IsMonotone, IsFirst, search-IsFirst}
use days_golang_master.GeeBolt.Node.{Kv, Node, not_before, is_exact, index, write_at, put, del}
use days_golang_master.Base.Compare.{Before, eq_of_compare_bytes, compare_bytes_refl, Before-trans}
use days_golang_master.GeeBolt.Node.Ordered.{
  IsOrdered, insert, remove, find, insert-IsOrdered, remove-IsOrdered, find-insert, find-remove,
}

not_before-false :
    (kvs : List Kv) (k : Text) (i : ℕ) (e : Kv)
    → get_elem? kvs i ≡ some e
    → not_before kvs k i ≡ false
    → Before e.key k
unfolding not_before
not_before-false kvs k i e p h = ground (arith, p)

not_before-false_of :
    (kvs : List Kv) (k : Text) (i : ℕ) (e : Kv)
    → get_elem? kvs i ≡ some e
    → Before e.key k
    → not_before kvs k i ≡ false
unfolding not_before
not_before-false_of kvs k i e p h = ground (arith, p)

IsOrdered-Before :
    (kvs : List Kv) (i j : ℕ) (x y : Kv)
    → IsOrdered kvs
    → i < j
    → get_elem? kvs i ≡ some x
    → get_elem? kvs j ≡ some y
    → Before x.key y.key
IsOrdered-Before [] i j x y h lt p q = absurd (none-ne-some p)
IsOrdered-Before (e ∷ l) i zero x y h lt p q = absurd (omega arith)
IsOrdered-Before (e ∷ l) zero (suc j) x y h lt p q =
    subst (λ t. Before t.key y.key) (eq_of_some p)
      (All-Has (λ z. Before e.key z.key) y l h.0 (get_elem?-Has y l j q))
IsOrdered-Before (e ∷ l) (suc i) (suc j) x y h lt p q =
    IsOrdered-Before l i j x y h.1 (omega arith) p q

monotone : (kvs : List Kv) (k : Text) → IsOrdered kvs → IsMonotone (length kvs) (not_before kvs k)
monotone kvs k h a b le lt t = elim (dec_lt a b) [
  | no same ↦ subst (λ i. not_before kvs k i ≡ true) (omega arith) t
  | yes less ↦ elim (Bool-cases (not_before kvs k b)) [
    | inl done ↦ done
    | inr before ↦
        let (y, ey) = get_elem?-lt kvs b lt in
        let (x, ex) = get_elem?-lt kvs a (omega arith) in
        let chain =
          Before-trans x.key y.key k (IsOrdered-Before kvs a b x y h less ex ey)
            (not_before-false kvs k b y ey before) in
        cc (t, not_before-false_of kvs k a x ex chain)
  ]
]

-- The index of a key among the later pairs.
IsFirst-tail :
    (e : Kv) (l : List Kv) (k : Text) (r : ℕ)
    → IsFirst (length (e ∷ l)) (not_before (e ∷ l) k) (suc r)
    → IsFirst (length l) (not_before l k) r
unfolding not_before
IsFirst-tail e l k r (le, below, above) = (
  omega arith,
  λ m h. below (suc m) (omega arith),
  λ m h p. above (suc m) (omega arith) (omega arith),
)

-- At the index that the search gives, the slices are the walk of the specification.
write_at-insert :
    (kvs : List Kv) (k v : Text) (r : ℕ)
    → IsFirst (length kvs) (not_before kvs k) r
    → write_at kvs r (is_exact kvs k r) (record { key = k; value = v })
      ≡ insert (record { key = k; value = v }) kvs
unfolding write_at is_exact insert not_before
write_at-insert [] k v zero f = refl
write_at-insert [] k v (suc r) (le, _, _) = absurd (omega arith)
write_at-insert (e ∷ l) k v zero (le, below, above) =
    ground (
      arith,
      above 0 (omega arith) (omega arith),
      compare_bytes_refl k,
      eq_of_compare_bytes e.key k,
    )
write_at-insert (e ∷ l) k v (suc r) f =
    ground (arith, f.1 0 (omega arith), write_at-insert l k v r (IsFirst-tail e l k r f))

-- Cutting a pair out at the index that the search gives is the removal.
cut : List Kv → ℕ → Bool → List Kv
cut kvs r exact = if exact then take r kvs ++ drop (suc r) kvs else kvs

cut-remove :
    (kvs : List Kv) (k : Text) (r : ℕ)
    → IsFirst (length kvs) (not_before kvs k) r
    → cut kvs r (is_exact kvs k r) ≡ remove k kvs
unfolding cut is_exact remove not_before
cut-remove [] k zero f = refl
cut-remove [] k (suc r) (le, _, _) = absurd (omega arith)
cut-remove (e ∷ l) k zero (le, below, above) =
    ground (
      arith,
      above 0 (omega arith) (omega arith),
      compare_bytes_refl k,
      eq_of_compare_bytes e.key k,
    )
cut-remove (e ∷ l) k (suc r) f =
    ground (arith, f.1 0 (omega arith), cut-remove l k r (IsFirst-tail e l k r f))

module _ (n : Node) (ordered : IsOrdered n.kvs) where
  -- On ordered pairs, writing a value under its own key is the insertion of the specification.
  pub put-insert : (k v : Text) → (put k k v n).kvs ≡ insert (record { key = k; value = v }) n.kvs
  unfolding put index
  put-insert k v =
      write_at-insert n.kvs k v _
        (search-IsFirst (length n.kvs) (not_before n.kvs k) (monotone n.kvs k ordered))

  pub del-remove : (k : Text) → (del k n).kvs ≡ remove k n.kvs
  unfolding del index cut
  del-remove k =
      let r = Search.search (length n.kvs) (not_before n.kvs k) in
      let step : (del k n).kvs ≡ cut n.kvs r (is_exact n.kvs k r) = ground arith in
      step
      ∙ cut-remove n.kvs k r
          (search-IsFirst (length n.kvs) (not_before n.kvs k) (monotone n.kvs k ordered))

  -- A write keeps the keys in strict order, gives its key the value, and leaves every other key.
  pub put-find :
      (k v j : Text)
      → IsOrdered (put k k v n).kvs
        × (find j (put k k v n).kvs ≡ ite (text_discrete k j) (some v) (find j n.kvs))
  put-find k v j = (
    subst IsOrdered (sym (put-insert k v))
        (insert-IsOrdered (record { key = k; value = v }) n.kvs ordered),
    ap (find j) (put-insert k v) ∙ find-insert j (record { key = k; value = v }) n.kvs,
  )

  -- A deletion keeps the keys in strict order, takes the key's value, and leaves every other key.
  pub del-find :
      (k j : Text)
      → IsOrdered (del k n).kvs
        × (find j (del k n).kvs ≡ ite (text_discrete k j) none (find j n.kvs))
  del-find k j = (
    subst IsOrdered (sym (del-remove k)) (remove-IsOrdered k n.kvs ordered),
    ap (find j) (del-remove k) ∙ find-remove j k n.kvs ordered,
  )
