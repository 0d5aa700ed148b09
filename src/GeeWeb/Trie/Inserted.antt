-- ===== src/GeeWeb/Trie/Inserted.antt =====
-- After an insert the parts of the pattern are found, and no path that was found is lost.
use days_golang_master.Base.{
  ℕ, suc, ◌≡◌, ◌≢◌, refl, ap, sym, ◌∙◌, subst, ◌⊎◌, inl, inr, Text, text_discrete, Option, none,
  some, List, [], ◌∷◌, Run, done, ◌>>=◌, >>=-eq-done, eq_of_done, if_pos, true, arith, Bool-cases,
}
use days_golang_master.GeeWeb.Trie.{
  Node, Nodes, node, nil, cons, pattern_of, part_of, is_wild, children, is_star, fits, new_child,
  change_child, insert, match_children, first_result, ended, search,
}
use days_golang_master.GeeWeb.Trie.Keeps.{
  EveryIn, Top, Passed, new_child-node, Passed-tail, Top-of_new, Top-of_Every, EveryIn-of_Every,
}
use days_golang_master.GeeWeb.Trie.Finds.{ended-some, ended-none, search-star, search-below}

-- A `*` node has a pattern: no route goes on behind a `*` part.
abbrev pub StarEnds : ℕ → Text → Text → Type 0
StarEnds d pat part = is_star part ≡ true → pat ≢ []

pub insert-part :
    (pat : Text) (ps : List Text) (n n' : Node)
    → insert pat ps n ≡ done n'
    → (part_of n' ≡ part_of n) × (is_wild n' ≡ is_wild n)
unfolding insert
insert-part pat [] (node _ part wild cs) n' e =
    let q = eq_of_done e in (ap part_of (sym q), ap is_wild (sym q))
insert-part pat (p ∷ ps) (node _ part wild cs) n' e =
    let (cs', _, e') = >>=-eq-done (change_child (insert pat ps) p cs) _ e in
    let q = eq_of_done e' in (ap part_of (sym q), ap is_wild (sym q))

fits_same :
    (c c' : Node) (p : Text)
    → (part_of c' ≡ part_of c) × (is_wild c' ≡ is_wild c)
    → fits c' p ≡ fits c p
fits_same c c' p (a, b) = rw (a, b)

fits_new : (p : Text) (c : Node) → new_child p ≡ done c → fits c p ≡ true
fits_new p c e = let q = new_child-node p c e in rw (if_pos _ q.1)

-- The child that insert changes is the first one that fits afterwards.
module _ (pat : Text) (ps : List Text) (p : Text) (P : ℕ → Text → Text → Type 0) (d : ℕ)
    (passed : Passed P d (p ∷ ps)) where
  record First (cs' : Nodes) : Type 0 where
    old : Node
    new : Node
    later : List Node
    run : insert pat ps old ≡ done new
    first : match_children p cs' ≡ new ∷ later
    top : Top P ps (suc d) old
    below : EveryIn P (suc (suc d)) (children old)

  change_child-First :
      (cs cs' : Nodes)
      → EveryIn P (suc d) cs
      → change_child (insert pat ps) p cs ≡ done cs'
      → First cs'
  unfolding change_child match_children
  change_child-First nil cs' h e =
      let (c, made, e') = >>=-eq-done (new_child p) _ e in
      let (c', changed, e'') = >>=-eq-done (insert pat ps c) _ e' in
      let q = new_child-node p c made in
      subst First (eq_of_done e'') (record {
        old = c;
        new = c';
        later = [];
        run = changed;
        first = rw (fits_same c c' p (insert-part pat ps c c' changed) ∙ fits_new p c made);
        top = Top-of_new P d p ps c passed q;
        below = subst (EveryIn P (suc (suc d))) (sym q.2) tt;
      })
  change_child-First (cons c cs) cs' h e = elim (Bool-cases (fits c p)) [
    | inl hit ↦
        let e1 : (insert pat ps c >>= (λ c'. done (cons c' cs))) ≡ done cs' =
          ground (arith, e, hit) in
        let (c', changed, e'') = >>=-eq-done (insert pat ps c) _ e1 in
        subst First (eq_of_done e'') (record {
          old = c;
          new = c';
          later = match_children p cs;
          run = changed;
          first = rw (fits_same c c' p (insert-part pat ps c c' changed) ∙ hit);
          top = Top-of_Every P ps (suc d) c h.0;
          below = EveryIn-of_Every P (suc d) c h.0;
        })
    | inr miss ↦
        let e1 : (change_child (insert pat ps) p cs >>= (λ r. done (cons c r))) ≡ done cs' =
          ground (arith, e, miss) in
        let (r, changed, e'') = >>=-eq-done (change_child (insert pat ps) p cs) _ e1 in
        let f = change_child-First cs r h.1 changed in
        subst First (eq_of_done e'') (record {
          old = f.old;
          new = f.new;
          later = f.later;
          run = f.run;
          first = rw miss f.first;
          top = f.top;
          below = f.below;
        })
  ]

first_result-head :
    (f : Node → Option Node) (c m : Node) (l cs : List Node)
    → cs ≡ c ∷ l
    → f c ≡ some m
    → first_result f cs ≡ some m
unfolding first_result
first_result-head f c m l cs e q = rw e (ground (arith, q))

-- The parts of an inserted pattern lead to a node with that pattern, or to a `*` node on the way.
pub search-insert :
    (pat : Text) (ps : List Text) (d : ℕ) (n n' : Node)
    → pat ≢ []
    → Passed StarEnds d ps
    → Top StarEnds ps d n
    → EveryIn StarEnds (suc d) (children n)
    → insert pat ps n ≡ done n'
    → (m : Node) × (search ps n' ≡ some m) × ((pattern_of m ≡ pat) ⊎ (is_star (part_of m) ≡ true))
search-insert pat [] d (node _ part wild cs) n' ne passed top h e =
    let q : node pat part wild cs ≡ n' = eq_of_done (unfold insert in e) in
    (
      node pat part wild cs,
      subst (λ x. search [] x ≡ some (node pat part wild cs)) q
          (unfold search in ended-some (node pat part wild cs) ne),
      inl refl,
    )
search-insert pat (p ∷ ps) d (node pat' part wild cs) n' ne passed top h e =
    let e0 : (change_child (insert pat ps) p cs >>= (λ r. done (node pat' part wild r))) ≡ done n' =
      unfold insert in e in
    let (cs', changed, e') = >>=-eq-done (change_child (insert pat ps) p cs) _ e0 in
    let q : node pat' part wild cs' ≡ n' = eq_of_done e' in
    subst
      (λ x.
        (m : Node) × (search (p ∷ ps) x ≡ some m)
        × ((pattern_of m ≡ pat) ⊎ (is_star (part_of m) ≡ true)))
      q
      (elim (Bool-cases (is_star part)) [
        | inl s ↦ (
          node pat' part wild cs',
          search-star p ps (node pat' part wild cs') s
              ∙ ended-some (node pat' part wild cs') (top s),
          inr s,
        )
        | inr s ↦
            let f = change_child-First pat ps p StarEnds d passed cs cs' h changed in
            let (m, found, good) =
              search-insert pat ps (suc d) f.old f.new ne (Passed-tail StarEnds d p ps passed) f.top
                f.below f.run in
            (
              m,
              search-below p ps (node pat' part wild cs') s
                  ∙ first_result-head (search ps) f.new m f.later (match_children p cs') f.first
                      found,
              good,
            )
      ])

-- A list of children in which only one has changed, or one is new.
change_child-finds :
    (f : Node → Run Node) (g : Node → Option Node) (p q : Text)
    → ((c c' : Node) → f c ≡ done c' → (part_of c' ≡ part_of c) × (is_wild c' ≡ is_wild c))
    → ((c c' : Node) → f c ≡ done c' → g c ≢ none → g c' ≢ none)
    → (cs cs' : Nodes) → change_child f q cs ≡ done cs'
    → first_result g (match_children p cs) ≢ none
    → first_result g (match_children p cs') ≢ none
unfolding change_child match_children first_result
change_child-finds f g p q same keep nil cs' e h = absurd (h refl)
change_child-finds f g p q same keep (cons c cs) cs' e h = elim (Bool-cases (fits c q)) [
  | inl hit ↦
      let e1 : (f c >>= (λ c'. done (cons c' cs))) ≡ done cs' = ground (arith, e, hit) in
      let (c', changed, e'') = >>=-eq-done (f c) _ e1 in
      let fit : fits c' p ≡ fits c p = fits_same c c' p (same c c' changed) in
      subst (λ x. first_result g (match_children p x) ≢ none) (eq_of_done e'')
        (ground (arith, fit, h, keep c c' changed))
  | inr miss ↦
      let e1 : (change_child f q cs >>= (λ r. done (cons c r))) ≡ done cs' =
        ground (arith, e, miss) in
      let (r, changed, e'') = >>=-eq-done (change_child f q cs) _ e1 in
      subst (λ x. first_result g (match_children p x) ≢ none) (eq_of_done e'')
        (ground (arith, h, change_child-finds f g p q same keep cs r changed))
]

ended-keeps :
    (n n' : Node) → (pattern_of n ≢ [] → pattern_of n' ≢ []) → ended n ≢ none → ended n' ≢ none
ended-keeps n n' keep h e = elim (text_discrete (pattern_of n) []) [
  | yes q ↦ h (if_pos (text_discrete (pattern_of n) []) q none (some n))
  | no q ↦ keep q (ended-none n' e)
]

insert-pattern :
    (pat : Text) (qs : List Text) (n n' : Node)
    → pat ≢ []
    → insert pat qs n ≡ done n'
    → pattern_of n ≢ []
    → pattern_of n' ≢ []
unfolding insert
insert-pattern pat [] (node _ part wild cs) n' ne e h =
    subst (λ x. pattern_of x ≢ []) (eq_of_done e) ne
insert-pattern pat (q ∷ qs) (node pat' part wild cs) n' ne e h =
    let (cs', _, e') = >>=-eq-done (change_child (insert pat qs) q cs) _ e in
    subst (λ x. pattern_of x ≢ []) (eq_of_done e') h

insert-below :
    (g : Node → Option Node) (p pat : Text)
    → ((rs : List Text) (c c' : Node) → insert pat rs c ≡ done c' → g c ≢ none → g c' ≢ none)
    → (qs : List Text) (n n' : Node) → insert pat qs n ≡ done n'
    → first_result g (match_children p (children n)) ≢ none
    → first_result g (match_children p (children n')) ≢ none
unfolding insert
insert-below g p pat keep [] (node _ part wild cs) n' e h =
    subst (λ x. first_result g (match_children p (children x)) ≢ none) (eq_of_done e) h
insert-below g p pat keep (q ∷ qs) (node pat' part wild cs) n' e h =
    let (cs', changed, e') = >>=-eq-done (change_child (insert pat qs) q cs) _ e in
    subst (λ x. first_result g (match_children p (children x)) ≢ none) (eq_of_done e')
      (change_child-finds (insert pat qs) g p q (λ c c' k. insert-part pat qs c c' k) (keep qs) cs
        cs' changed h)

-- Inserting another pattern loses no path: what was found before leads to some pattern after.
pub search-insert_keeps :
    (ps : List Text) (pat : Text) (qs : List Text) (n n' : Node)
    → pat ≢ []
    → insert pat qs n ≡ done n'
    → search ps n ≢ none
    → search ps n' ≢ none
search-insert_keeps [] pat qs n n' ne e h =
    unfold search in ended-keeps n n' (insert-pattern pat qs n n' ne e) h
search-insert_keeps (p ∷ ps) pat qs n n' ne e h = elim (Bool-cases (is_star (part_of n))) [
  | inl s ↦
      let s' = ap is_star (insert-part pat qs n n' e).0 ∙ s in
      λ z.
        ended-keeps n n' (insert-pattern pat qs n n' ne e) (λ y. h (search-star p ps n s ∙ y))
          (sym (search-star p ps n' s') ∙ z)
  | inr s ↦
      let s' = ap is_star (insert-part pat qs n n' e).0 ∙ s in
      λ z.
        insert-below (search ps) p pat (λ rs c c' k. search-insert_keeps ps pat rs c c' ne k) qs n
          n' e (λ y. h (search-below p ps n s ∙ y)) (sym (search-below p ps n' s') ∙ z)
]
