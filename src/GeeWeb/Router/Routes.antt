-- ===== src/GeeWeb/Router/Routes.antt =====
-- Looking routes up: getRoute and the choice of handle, on a valid router.
use days_golang_master.Base.{
  ℕ, suc, ◌+◌, ◌≤◌, ◌≡◌, ◌≢◌, refl, ap, sym, ◌∙◌, subst, ◌⊎◌, inl, inr, Text, text_discrete, Option,
  none, some, List, [], done, length, >>=-eq-done, ite, if_pos, if_neg, true, arith, Option-cases,
  none-ne-some, eq_of_done,
}
use days_golang_master.Base.Table
use days_golang_master.Base.Table.{Table}
use days_golang_master.GeeWeb.Trie
use days_golang_master.GeeWeb.Trie.{
  Node, Nodes, node, nil, cons, pattern_of, part_of, children, is_star, insert,
}
use days_golang_master.GeeWeb.Trie.Keeps.{Every, EveryIn, EveryIn-of_Every, Top-of_Every}
use days_golang_master.GeeWeb.Trie.Finds.{search-Reaches, Reaches, stop, star, step, HasChild}
use days_golang_master.GeeWeb.Trie.Inserted.{StarEnds, search-insert, search-insert_keeps}
use days_golang_master.GeeWeb.Router.{
  Router, parse_pattern, route_key, root_of, add_route, get_route, bind_params,
}
use days_golang_master.GeeWeb.Router.Parts.{
  parse_pattern-IsParts, Passed-of_IsParts, bind_params_total,
}
use days_golang_master.GeeWeb.Router.Valid.{
  IsRoute, IsValid, handlers', root_of-Every, root_of-some, Every-map, add_route-IsValid,
}

child-Every :
    (P : ℕ → Text → Text → Type 0) (d : ℕ) (c : Node) (cs : Nodes)
    → EveryIn P d cs
    → HasChild c cs
    → Every P d c
child-Every P d c nil h mem = absurd mem
child-Every P d c (cons x cs) (p, h) (inl e) = subst (Every P d) e p
child-Every P d c (cons x cs) (p, h) (inr mem) = child-Every P d c cs h mem

-- What the path reaches is in the tree, at a depth of at most its parts.
Reaches-Every :
    (P : ℕ → Text → Text → Type 0) (d : ℕ) (n m : Node) (ps : List Text)
    → Every P d n
    → Reaches n ps m
    → (e : ℕ) × P e (pattern_of m) (part_of m) × (e ≤ d + length ps)
Reaches-Every P d (node pat part wild cs) m ps h (stop _) = (d, h.0, omega arith)
Reaches-Every P d (node pat part wild cs) m ps h (star _ p qs s) = (d, h.0, omega arith)
Reaches-Every P d n m ps h (step _ c p qs _ s mem fit r) =
    let (e, q, le) =
      Reaches-Every P (suc d) c m qs
        (child-Every P (suc d) c (children n) (EveryIn-of_Every P d n h) mem) r in
    (e, q, omega arith)

module _ {H : Type 0} (method path : Text) (r : Router H) (valid : IsValid r) where
  -- What getRoute answers on a valid router.
  pub data Answer : Option (Node × Table Text Text) → Type 0 where
    missing : Answer none
    found :
        (n : Node) (params : Table Text Text) (h : H)
        → pattern_of n ≢ []
        → Table.get text_discrete (route_key method (pattern_of n)) r.handlers ≡ some h
        → length (parse_pattern (pattern_of n)) ≤ length (parse_pattern path)
        → bind_params (parse_pattern path) (parse_pattern (pattern_of n)) 0 [] ≡ done params
        → Answer (some (n, params))

  get_route_of_search :
      (root n : Node)
      → Table.get text_discrete method r.roots ≡ some root
      → Trie.search (parse_pattern path) root ≡ some n
      → (params : Table Text Text) × (get_route method path r ≡ done (some (n, params)))
        × Answer (some (n, params))
  unfolding get_route
  get_route_of_search root n e s =
      let (reach, ne) = search-Reaches (parse_pattern path) root n s in
      let (d, h, le) =
        Reaches-Every (IsRoute r.handlers method) 0 root n (parse_pattern path)
          (valid.routes method root e).0 reach in
      let (params, bound) =
        bind_params_total (parse_pattern path) (parse_pattern (pattern_of n)) 0 []
          (parse_pattern-IsParts (pattern_of n)) (omega (arith, le, h.deep ne)) in
      (
        params,
        ground (arith, e, s, bound),
        (elim (Option-cases
            (Table.get text_discrete (route_key method (pattern_of n)) r.handlers)) [
              | inl gone ↦ absurd (h.handled ne gone)
              | inr (x, has) ↦ found n params x ne has (omega (arith, le, h.deep ne)) bound
            ]),
      )

  -- getRoute never panics; what it finds has a pattern with a handler, and its parameters are bound.
  pub get_route-Answer :
      (o : Option (Node × Table Text Text)) × (get_route method path r ≡ done o) × Answer o
  get_route-Answer = elim (Option-cases (Table.get text_discrete method r.roots)) [
    | inl e ↦ (none, no_root e, missing)
    | inr (root, e) ↦ elim (Option-cases (Trie.search (parse_pattern path) root)) [
      | inl s ↦ (none, no_node root e s, missing)
      | inr (n, s) ↦
          let (params, run, a) = get_route_of_search root n e s in (some (n, params), run, a)
    ]
  ]
    where
      no_root : Table.get text_discrete method r.roots ≡ none → get_route method path r ≡ done none
      no_root e = unfold get_route in ground (arith, e)

      no_node :
          (root : Node)
          → Table.get text_discrete method r.roots ≡ some root
          → Trie.search (parse_pattern path) root ≡ none
          → get_route method path r ≡ done none
      no_node root e s = unfold get_route in ground (arith, e, s)

-- What add_route leaves in the two tables.
add_route-roots :
    {H : Type 0} (method pattern : Text) (h : H) (r r' : Router H)
    → add_route method pattern h r ≡ done r'
    → (root : Node) × (insert pattern (parse_pattern pattern) (root_of method r) ≡ done root)
      × (r'.roots ≡ Table.put text_discrete method root r.roots)
unfolding add_route
add_route-roots method pattern h r r' e =
    let (root, ins, q) =
      >>=-eq-done (insert pattern (parse_pattern pattern) (root_of method r)) _ e in
    (root, ins, ap (λ x. x.roots) (sym (eq_of_done q)))

module _ {H : Type 0} (method pattern : Text) (h : H) (r : Router H) (valid : IsValid r)
    (ne : pattern ≢ []) where
  -- Once a route is added, every path with the same parts is found for its method: at the new
  -- pattern, or at a `*` route that takes the path before that.
  pub get_route-add_route :
      (path : Text)
      → parse_pattern path ≡ parse_pattern pattern
      → (r' : Router H) × (n : Node) × (params : Table Text Text) × (add_route method pattern h r
          ≡ done r')
        × (get_route method path r' ≡ done (some (n, params)))
        × ((pattern_of n ≡ pattern) ⊎ (is_star (part_of n) ≡ true))
  get_route-add_route path same =
      let (r', run, v) = add_route-IsValid method pattern h r valid in
      let (root, ins, roots) = add_route-roots method pattern h r r' run in
      let here : Table.get text_discrete method r'.roots ≡ some root =
        ap (Table.get text_discrete method) roots
        ∙ Table.get-put text_discrete method method root r.roots
        ∙ if_pos (text_discrete method method) refl (some root)
            (Table.get text_discrete method r.roots) in
      let stars : Every StarEnds 0 (root_of method r) =
        Every-map (IsRoute (handlers' method pattern h r valid) method) StarEnds (λ d a b x. x.ends)
          (root_of method r) 0 (root_of-Every method pattern h r valid).0 in
      let (n, found_n, good) =
        search-insert pattern (parse_pattern pattern) 0 (root_of method r) root ne
          (Passed-of_IsParts 0 (parse_pattern pattern) (parse_pattern-IsParts pattern))
          (Top-of_Every StarEnds (parse_pattern pattern) 0 (root_of method r) stars)
          (EveryIn-of_Every StarEnds 0 (root_of method r) stars) ins in
      let (params, got, _) =
        get_route_of_search method path r' v root n here
          (subst (λ ps. Trie.search ps root ≡ some n) (sym same) found_n) in
      (r', n, params, run, got, good)

  get_route-some :
      (m path : Text) (x : Node × Table Text Text)
      → get_route m path r ≡ done (some x)
      → (root : Node) × (Table.get text_discrete m r.roots ≡ some root)
        × (Trie.search (parse_pattern path) root ≢ none)
  unfolding get_route
  get_route-some m path x e = elim (Option-cases (Table.get text_discrete m r.roots)) [
    | inl none_left ↦ absurd (none-ne-some (eq_of_done (rw (none_left, get_route) at e)))
    | inr (root, q) ↦ (root, q, λ s. ground (arith, e, q, s))
  ]

  finds_some :
      (m path : Text) (r' : Router H) (root : Node)
      → IsValid r'
      → Table.get text_discrete m r'.roots ≡ some root
      → Trie.search (parse_pattern path) root ≢ none
      → (y : Node × Table Text Text) × (get_route m path r' ≡ done (some y))
  finds_some m path r' root v e seen = elim (Option-cases (Trie.search (parse_pattern path) root)) [
    | inl s ↦ absurd (seen s)
    | inr (n, s) ↦
        let (params, got, _) = get_route_of_search m path r' v root n e s in ((n, params), got)
  ]

  -- Adding a route loses no path: what was found is still found.
  pub get_route_keeps :
      (m path : Text) (x : Node × Table Text Text)
      → get_route m path r ≡ done (some x)
      → (r' : Router H) × (y : Node × Table Text Text) × (add_route method pattern h r ≡ done r')
        × (get_route m path r' ≡ done (some y))
  get_route_keeps m path x e =
      let (r', run, v) = add_route-IsValid method pattern h r valid in
      let (root, ins, roots) = add_route-roots method pattern h r r' run in
      let (old, was, seen) = get_route-some m path x e in
      let now : Table.get text_discrete m r'.roots
          ≡ ite (text_discrete method m) (some root) (Table.get text_discrete m r.roots) =
        ap (Table.get text_discrete m) roots ∙ Table.get-put text_discrete m method root r.roots in
      let (y, got) : (y : Node × Table Text Text) × (get_route m path r' ≡ done (some y)) =
        elim (text_discrete method m) [
          | yes same ↦
              let old_root : root_of method r ≡ old =
                ap (λ t. root_of t r) same ∙ root_of-some m r old was in
              finds_some m path r' root v
                (now
                  ∙ if_pos (text_discrete method m) same (some root)
                      (Table.get text_discrete m r.roots))
                (search-insert_keeps (parse_pattern path) pattern (parse_pattern pattern)
                  (root_of method r) root ne ins
                  (λ s. seen (ap (Trie.search (parse_pattern path)) (sym old_root) ∙ s)))
          | no other ↦
              finds_some m path r' old v
                (now
                  ∙ if_neg (text_discrete method m) other (some root)
                      (Table.get text_discrete m r.roots)
                  ∙ was)
                seen
        ] in
      (r', y, run, got)
