-- ===== src/GeeWeb/Trie/Keeps.antt =====
-- What holds of every node of the prefix tree, by depth, pattern and part, and how insert keeps it.
use days_golang_master.Base.{
  ℕ, suc, ◌+◌, ◌≡◌, ap, sym, subst, inl, inr, Text, List, [], ◌∷◌, Run, done, ◌>>=◌, >>=-eq-done,
  eq_of_done, length, arith, Bool-cases,
}
use days_golang_master.GeeWeb.Trie.{
  Node, Nodes, node, nil, cons, pattern_of, part_of, children, fits, new_child, change_child,
  insert,
}

-- `P d pattern part` holds of a node at depth `d` and of all below it.
abbrev mutual
  pub Every : (ℕ → Text → Text → Type 0) → ℕ → Node → Type 0
  Every P d (node pat part wild cs) = P d pat part × EveryIn P (suc d) cs

  pub EveryIn : (ℕ → Text → Text → Type 0) → ℕ → Nodes → Type 0
  EveryIn P d nil = Unit
  EveryIn P d (cons c cs) = Every P d c × EveryIn P d cs

-- A child is changed by `f`, or a new one made for the part is.
change_child-EveryIn :
    (P : ℕ → Text → Text → Type 0) (d : ℕ) (f : Node → Run Node) (p : Text)
    → ((c c' : Node) → f c ≡ done c' → Every P d c → Every P d c')
    → ((c c' : Node) → new_child p ≡ done c → f c ≡ done c' → Every P d c')
    → (cs cs' : Nodes) → change_child f p cs ≡ done cs'
    → EveryIn P d cs
    → EveryIn P d cs'
unfolding change_child
change_child-EveryIn P d f p old new nil cs' e h =
    let (c, made, e') = >>=-eq-done (new_child p) _ e in
    let (c', changed, e'') = >>=-eq-done (f c) _ e' in
    subst (EveryIn P d) (eq_of_done e'') (new c c' made changed, tt)
change_child-EveryIn P d f p old new (cons c cs) cs' e h = elim (Bool-cases (fits c p)) [
  | inl hit ↦
      let e1 : (f c >>= (λ c'. done (cons c' cs))) ≡ done cs' = ground (arith, e, hit) in
      let (c', changed, e'') = >>=-eq-done (f c) _ e1 in
      subst (EveryIn P d) (eq_of_done e'') (old c c' changed h.0, h.1)
  | inr miss ↦
      let e1 : (change_child f p cs >>= (λ r. done (cons c r))) ≡ done cs' =
        ground (arith, e, miss) in
      let (r, changed, e'') = >>=-eq-done (change_child f p cs) _ e1 in
      subst (EveryIn P d) (eq_of_done e'')
        (h.0, change_child-EveryIn P d f p old new cs r changed h.1)
]

-- What insert has to know of the node that it is called on: nothing, if it ends there, since its
-- pattern is overwritten.
abbrev pub Top : (ℕ → Text → Text → Type 0) → List Text → ℕ → Node → Type 0
Top P [] d n = Unit
Top P (p ∷ ps) d n = P d (pattern_of n) (part_of n)

-- New nodes that are passed through hold no pattern.
abbrev pub Passed : (ℕ → Text → Text → Type 0) → ℕ → List Text → Type 0
Passed P d [] = Unit
Passed P d (p ∷ []) = Unit
Passed P d (p ∷ q ∷ ps) = P (suc d) [] p × Passed P (suc d) (q ∷ ps)

pub new_child-node :
    (p : Text) (c : Node)
    → new_child p ≡ done c
    → (pattern_of c ≡ []) × (part_of c ≡ p) × (children c ≡ nil)
unfolding new_child
new_child-node [] c e = cc
new_child-node (b ∷ s) c e =
    let q = eq_of_done e in (ap pattern_of (sym q), ap part_of (sym q), ap children (sym q))

pub Passed-tail :
    (P : ℕ → Text → Text → Type 0) (d : ℕ) (p : Text) (ps : List Text)
    → Passed P d (p ∷ ps)
    → Passed P (suc d) ps
Passed-tail P d p [] h = tt
Passed-tail P d p (q ∷ ps) h = h.1

pub Top-of_new :
    (P : ℕ → Text → Text → Type 0) (d : ℕ) (p : Text) (ps : List Text) (c : Node)
    → Passed P d (p ∷ ps)
    → (pattern_of c ≡ []) × (part_of c ≡ p) × (children c ≡ nil)
    → Top P ps (suc d) c
Top-of_new P d p [] c h e = tt
Top-of_new P d p (q ∷ ps) c h (a, b, _) =
    subst (λ t. P (suc d) t (part_of c)) (sym a) (subst (P (suc d) []) (sym b) h.0)

pub Top-of_Every :
    (P : ℕ → Text → Text → Type 0) (ps : List Text) (d : ℕ) (c : Node) → Every P d c → Top P ps d c
Top-of_Every P [] d c h = tt
Top-of_Every P (p ∷ ps) d (node pat part wild cs) h = h.0

pub EveryIn-of_Every :
    (P : ℕ → Text → Text → Type 0) (d : ℕ) (c : Node) → Every P d c → EveryIn P (suc d) (children c)
EveryIn-of_Every P d (node pat part wild cs) h = h.1

-- Insert keeps what holds of every node, if it holds where the pattern ends and of the new nodes
-- on the way.
pub insert-Every :
    (P : ℕ → Text → Text → Type 0) (pat : Text) (ps : List Text) (d : ℕ) (n n' : Node)
    → ((part : Text) → P (d + length ps) pat part)
    → Passed P d ps
    → Top P ps d n
    → EveryIn P (suc d) (children n)
    → insert pat ps n ≡ done n'
    → Every P d n'
unfolding insert
insert-Every P pat [] d (node _ part wild cs) n' ends passed top h e =
    subst (Every P d) (eq_of_done e) (subst (λ k. P k pat part) (omega arith) (ends part), h)
insert-Every P pat (p ∷ ps) d (node pat' part wild cs) n' ends passed top h e =
    let (cs', changed, e') = >>=-eq-done (change_child (insert pat ps) p cs) _ e in
    let ends' : (t : Text) → P (suc d + length ps) pat t =
      λ t. subst (λ k. P k pat t) (omega arith) (ends t) in
    subst (Every P d) (eq_of_done e') (
      top,
      change_child-EveryIn P (suc d) (insert pat ps) p
          (λ c c' run hc.
            insert-Every P pat ps (suc d) c c' ends' (Passed-tail P d p ps passed)
              (Top-of_Every P ps (suc d) c hc) (EveryIn-of_Every P (suc d) c hc) run)
          (λ c c' made run.
            let q = new_child-node p c made in
            insert-Every P pat ps (suc d) c c' ends' (Passed-tail P d p ps passed)
              (Top-of_new P d p ps c passed q) (subst (EveryIn P (suc (suc d))) (sym q.2) tt) run)
          cs cs' changed h,
    )
