-- ===== src/GeeWeb/Trie/Finds.antt =====
-- What search finds: exactly the nodes that the path reaches, and after an insert the new pattern.
use days_golang_master.Base.{
  ◌≡◌, ◌≢◌, refl, sym, ◌∙◌, subst, ◌⊎◌, inl, inr, Text, text_discrete, Option, none, some, List, [],
  ◌∷◌, eq_of_some, none-ne-some, if_pos, if_neg, true, false, arith, Bool-cases, Option-cases,
}
use days_golang_master.GeeWeb.Trie.{
  Node, Nodes, nil, cons, pattern_of, part_of, children, is_star, fits, match_children,
  first_result, ended, search,
}

-- A child of a list.
abbrev pub HasChild : Node → Nodes → Type 0
HasChild c nil = ⊥
HasChild c (cons x cs) = (x ≡ c) ⊎ HasChild c cs

-- The path leads from a node to another: down through children that fit its parts, to the node at
-- its end, or to a `*` node before that, which takes what is left.
pub data Reaches : Node → List Text → Node → Type 0 where
  stop : (n : Node) → Reaches n [] n
  star : (n : Node) (p : Text) (ps : List Text) → is_star (part_of n) ≡ true → Reaches n (p ∷ ps) n
  step :
      (n c : Node) (p : Text) (ps : List Text) (m : Node)
      → is_star (part_of n) ≡ false
      → HasChild c (children n)
      → fits c p ≡ true
      → Reaches c ps m
      → Reaches n (p ∷ ps) m

pub ended-eq : (n m : Node) → ended n ≡ some m → (n ≡ m) × (pattern_of n ≢ [])
ended-eq n m e = elim (text_discrete (pattern_of n) []) [
  | yes q ↦ absurd (none-ne-some (rw (if_pos _ q) at e))
  | no q ↦ (eq_of_some (rw (if_neg _ q) at e), q)
]

pub ended-some : (n : Node) → pattern_of n ≢ [] → ended n ≡ some n
ended-some n q = rw (if_neg _ q)

pub ended-none : (n : Node) → ended n ≡ none → pattern_of n ≡ []
ended-none n e = elim (text_discrete (pattern_of n) []) [
  | yes q ↦ q
  | no q ↦ absurd (none-ne-some (sym e ∙ ended-some n q))
]

first_result-child :
    (f : Node → Option Node) (p : Text) (cs : Nodes) (m : Node)
    → first_result f (match_children p cs) ≡ some m
    → (c : Node) × HasChild c cs × (fits c p ≡ true) × (f c ≡ some m)
unfolding first_result match_children
first_result-child f p nil m e = absurd (none-ne-some e)
first_result-child f p (cons c cs) m e = elim (Bool-cases (fits c p)) [
  | inr miss ↦
      let (x, mem, fit, r) = first_result-child f p cs m (ground (arith, e, miss)) in
      (x, inr mem, fit, r)
  | inl hit ↦ elim (Option-cases (f c)) [
    | inl nothing ↦
        let (x, mem, fit, r) = first_result-child f p cs m (ground (arith, e, hit, nothing)) in
        (x, inr mem, fit, r)
    | inr (r, found) ↦ (c, inl refl, hit, ground (arith, e, hit, found))
  ]
]

first_result-none :
    (f : Node → Option Node) (p : Text) (cs : Nodes)
    → first_result f (match_children p cs) ≡ none
    → (c : Node) → HasChild c cs
    → fits c p ≡ true
    → f c ≡ none
unfolding first_result match_children
first_result-none f p nil e c mem fit = absurd mem
first_result-none f p (cons x cs) e c (inl same) fit =
    subst (λ y. f y ≡ none) same
      (let fit' : fits x p ≡ true = subst (λ y. fits y p ≡ true) (sym same) fit in
        ground (arith, e, fit'))
first_result-none f p (cons x cs) e c (inr mem) fit =
    first_result-none f p cs
      (elim (Bool-cases (fits x p)) [
        | inl hit ↦ ground (arith, e, hit)
        | inr miss ↦ ground (arith, e, miss)
      ])
      c mem fit

pub search-star :
    (p : Text) (ps : List Text) (n : Node)
    → is_star (part_of n) ≡ true
    → search (p ∷ ps) n ≡ ended n
unfolding search
search-star p ps n h = rw h

pub search-below :
    (p : Text) (ps : List Text) (n : Node)
    → is_star (part_of n) ≡ false
    → search (p ∷ ps) n ≡ first_result (search ps) (match_children p (children n))
unfolding search
search-below p ps n h = rw h

-- What search returns is reached by the path, and a pattern ends there.
pub search-Reaches :
    (ps : List Text) (n m : Node) → search ps n ≡ some m → Reaches n ps m × (pattern_of m ≢ [])
search-Reaches [] n m e =
    let (same, q) = ended-eq n m (unfold search in e) in
    (subst (Reaches n []) same (stop n), subst (λ x. pattern_of x ≢ []) same q)
search-Reaches (p ∷ ps) n m e = elim (Bool-cases (is_star (part_of n))) [
  | inl s ↦
      let (same, q) = ended-eq n m (sym (search-star p ps n s) ∙ e) in
      (subst (Reaches n (p ∷ ps)) same (star n p ps s), subst (λ x. pattern_of x ≢ []) same q)
  | inr s ↦
      let (c, mem, fit, r) =
        first_result-child (search ps) p (children n) m (sym (search-below p ps n s) ∙ e) in
      let (reach, q) = search-Reaches ps c m r in (step n c p ps m s mem fit reach, q)
]

-- Where search returns nil, no node with a pattern is reached.
pub search-none :
    (ps : List Text) (n m : Node) → search ps n ≡ none → Reaches n ps m → pattern_of m ≡ []
search-none ps n m e (stop _) = ended-none n (unfold search in e)
search-none ps n m e (star _ p ps' s) = ended-none n (sym (search-star p ps' n s) ∙ e)
search-none ps n m e (step _ c p ps' _ s mem fit reach) =
    search-none ps' c m
      (first_result-none (search ps') p (children n) (sym (search-below p ps' n s) ∙ e) c mem fit)
      reach
