-- ===== src/GeeBolt/Node/Ordered.antt =====
-- The specification of a node: a list of pairs in the strict order of their keys, with insertion
-- and deletion written as one walk over the list.
use Prim.Native.Nat.{Ordering}
use days_golang_master.Base.{
  ◌≡◌, refl, sym, ◌∙◌, subst, ◌≢◌, Text, text_discrete, Option, none, some, List, [], ◌∷◌, ite, All,
  arith, if_pos, if_neg,
}
use days_golang_master.GeeBolt.Node.{Kv}
use days_golang_master.Base.Compare.{
  compare_bytes, Before, eq_of_compare_bytes, Before-irrefl, Before-trans, Before-of_gt,
}

-- Each key comes before all later ones.
abbrev pub IsOrdered : List Kv → Type 0
IsOrdered [] = Unit
IsOrdered (e ∷ l) = All (λ x. Before e.key x.key) l × IsOrdered l

-- The value of the first pair with a key.
unfoldable pub find : Text → List Kv → Option Text
find k [] = none
find k (e ∷ l) = ite (text_discrete e.key k) (some e.value) (find k l)

-- Where the key belongs, `e` replaces the pair with its key or stands in front of the later ones.
unfoldable pub insert : Kv → List Kv → List Kv
insert e [] = e ∷ []
insert e (x ∷ l) =
    let rest = insert e l in
    elim (compare_bytes x.key e.key) [
      | Ordering.lt ↦ x ∷ rest
      | Ordering.eq ↦ e ∷ l
      | Ordering.gt ↦ e ∷ x ∷ l
    ]

unfoldable pub remove : Text → List Kv → List Kv
remove k [] = []
remove k (x ∷ l) =
    let rest = remove k l in
    elim (compare_bytes x.key k) [ Ordering.lt ↦ x ∷ rest | Ordering.eq ↦ l | Ordering.gt ↦ x ∷ l ]

All-later :
    (a b : Text) (l : List Kv)
    → Before a b
    → All (λ x. Before b x.key) l
    → All (λ x. Before a x.key) l
All-later a b [] h k = tt
All-later a b (x ∷ l) h (p, k) = (Before-trans a b x.key h p, All-later a b l h k)

Ordering-cases :
    (o : Ordering)
    → (P : Type 0) → (o ≡ Ordering.lt → P)
    → (o ≡ Ordering.eq → P)
    → (o ≡ Ordering.gt → P)
    → P
Ordering-cases Ordering.lt P l e g = l refl
Ordering-cases Ordering.eq P l e g = e refl
Ordering-cases Ordering.gt P l e g = g refl

All-insert : (P : Kv → Type 0) (e : Kv) (l : List Kv) → P e → All P l → All P (insert e l)
unfolding insert
All-insert P e [] p h = (p, tt)
All-insert P e (x ∷ l) p (q, h) =
    Ordering-cases (compare_bytes x.key e.key) _ (λ c. rw (c, insert) (q, All-insert P e l p h))
      (λ c. rw (c, insert) (p, h)) (λ c. rw (c, insert) (p, (q, h)))

pub insert-IsOrdered : (e : Kv) (l : List Kv) → IsOrdered l → IsOrdered (insert e l)
unfolding insert
insert-IsOrdered e [] h = (tt, tt)
insert-IsOrdered e (x ∷ l) (p, h) =
    Ordering-cases (compare_bytes x.key e.key) _
      (λ c. rw (c, insert) (All-insert (λ y. Before x.key y.key) e l c p, insert-IsOrdered e l h))
      (λ c. rw (c, insert) (rw (eq_of_compare_bytes x.key e.key c) at p, h))
      (λ c.
        rw (c, insert)
          (
            (Before-of_gt x.key e.key c, All-later e.key x.key l (Before-of_gt x.key e.key c) p),
            (p, h),
          ))

find_absent : (k : Text) (l : List Kv) → All (λ x. Before k x.key) l → find k l ≡ none
unfolding find
find_absent k [] h = refl
find_absent k (x ∷ l) (p, h) = elim (text_discrete x.key k) [
  | yes e ↦ absurd (Before-irrefl k (subst (Before k) e p))
  | no n ↦ rw (if_neg _ n) (find_absent k l h)
]

All-remove : (P : Kv → Type 0) (k : Text) (l : List Kv) → All P l → All P (remove k l)
unfolding remove
All-remove P k [] h = tt
All-remove P k (x ∷ l) (q, h) =
    Ordering-cases (compare_bytes x.key k) _ (λ c. rw (c, remove) (q, All-remove P k l h))
      (λ c. rw (c, remove) h) (λ c. rw (c, remove) (q, h))

pub remove-IsOrdered : (k : Text) (l : List Kv) → IsOrdered l → IsOrdered (remove k l)
unfolding remove
remove-IsOrdered k [] h = tt
remove-IsOrdered k (x ∷ l) (p, h) =
    Ordering-cases (compare_bytes x.key k) _
      (λ c. rw (c, remove) (All-remove (λ y. Before x.key y.key) k l p, remove-IsOrdered k l h))
      (λ c. rw (c, remove) h) (λ c. rw (c, remove) (p, h))

Before-ne : (a b : Text) → Before a b → a ≢ b
Before-ne a b h e = Before-irrefl b (subst (λ t. Before t b) e h)

-- After an insertion the key has the new value, and every other key what it had.
pub find-insert :
    (j : Text) (e : Kv) (l : List Kv)
    → find j (insert e l) ≡ ite (text_discrete e.key j) (some e.value) (find j l)
unfolding find insert
find-insert j e [] = refl
find-insert j e (x ∷ l) =
    Ordering-cases (compare_bytes x.key e.key) _
      (λ c. ground (arith, c, find-insert j e l, Before-ne x.key e.key c))
      (λ c. ground (arith, c, eq_of_compare_bytes x.key e.key c)) (λ c. ground (arith, c))

-- After a removal the key has no value, and every other key what it had.
pub find-remove :
    (j k : Text) (l : List Kv)
    → IsOrdered l
    → find j (remove k l) ≡ ite (text_discrete k j) none (find j l)
unfolding find remove
find-remove j k [] h = ground arith
find-remove j k (x ∷ l) (p, h) =
    Ordering-cases (compare_bytes x.key k) _
      (λ c. ground (arith, c, find-remove j k l h, Before-ne x.key k c))
      (λ c.
        let same = eq_of_compare_bytes x.key k c in
        let gone : find k l ≡ none =
          find_absent k l (subst (λ t. All (λ y. Before t y.key) l) same p) in
        elim (text_discrete k j) [
          | yes q ↦
              rw (c, remove)
                (subst (λ t. find t l ≡ none) q gone
                  ∙ sym (if_pos (text_discrete k j) q none (find j (x ∷ l))))
          | no n ↦ ground (arith, c, same, n)
        ])
      (λ c.
        let later = Before-of_gt x.key k c in
        let gone : find k l ≡ none = find_absent k l (All-later k x.key l later p) in
        elim (text_discrete k j) [
          | yes q ↦
              ground (arith, c, q, Before-ne k x.key later, subst (λ t. find t l ≡ none) q gone)
          | no n ↦ ground (arith, c, n)
        ])
