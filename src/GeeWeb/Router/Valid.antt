-- ===== src/GeeWeb/Router/Valid.antt =====
-- The invariant of the router, which add_route keeps: each pattern in the tree of a method stands as
-- deep as it has parts, and has a handler. So get_route never panics and never gives a nil handler.
use days_golang_master.Base.{
  ℕ, suc, ◌≡◌, ◌≢◌, refl, ap, sym, ◌∙◌, subst, inl, inr, Text, text_discrete, none, some, List, [],
  ◌∷◌, done, length, if_pos, if_neg, arith, Option-cases, none-ne-some, eq_of_some, eq_of_done,
}
use days_golang_master.Base.Table
use days_golang_master.Base.Table.{Table}
use days_golang_master.GeeWeb.Trie.{Node, Nodes, node, nil, cons, part_of, insert}
use days_golang_master.GeeWeb.Trie.Keeps.{
  Every, EveryIn, Passed, insert-Every, EveryIn-of_Every, Top-of_Every,
}
use days_golang_master.GeeWeb.Trie.Inserted.{StarEnds, insert-part}
use days_golang_master.GeeWeb.Router.{
  Router, parse_pattern, route_key, root_of, empty_root, add_route, new_router,
}
use days_golang_master.GeeWeb.Router.Parts.{IsParts, parse_pattern-IsParts, insert_total}

module _ {H : Type 0} where
  -- What holds of a node of the tree of a method at depth `d`.
  pub record IsRoute (handlers : Table Text H) (method : Text) (d : ℕ) (pat part : Text)
      : Type 0 where
    pub deep : pat ≢ [] → length (parse_pattern pat) ≡ d
    pub handled : pat ≢ [] → Table.get text_discrete (route_key method pat) handlers ≢ none
    pub ends : StarEnds d pat part

  pub record IsValid (r : Router H) : Type 0 where
    pub routes :
        (method : Text) (root : Node)
        → Table.get text_discrete method r.roots ≡ some root
        → Every (IsRoute r.handlers method) 0 root × (part_of root ≡ [])

  pub new_router-IsValid : IsValid new_router
  unfolding Table.get
  new_router-IsValid = record { routes = λ method root e. absurd (none-ne-some e) }

-- A property that implies another one everywhere.
mutual
  pub Every-map :
      (P Q : ℕ → Text → Text → Type 0)
      → ((d : ℕ) (pat part : Text) → P d pat part → Q d pat part)
      → (n : Node) (d : ℕ) → Every P d n
      → Every Q d n
  Every-map P Q f (node pat part wild cs) d (p, h) =
      (f d pat part p, EveryIn-map P Q f cs (suc d) h)

  EveryIn-map :
      (P Q : ℕ → Text → Text → Type 0)
      → ((d : ℕ) (pat part : Text) → P d pat part → Q d pat part)
      → (cs : Nodes) (d : ℕ) → EveryIn P d cs
      → EveryIn Q d cs
  EveryIn-map P Q f nil d h = tt
  EveryIn-map P Q f (cons c cs) d (p, h) = (Every-map P Q f c d p, EveryIn-map P Q f cs d h)

pub root_of-none :
    {H : Type 0} (method : Text) (r : Router H)
    → Table.get text_discrete method r.roots ≡ none
    → root_of method r ≡ empty_root
root_of-none method r e = rw (e, root_of)

pub root_of-some :
    {H : Type 0} (method : Text) (r : Router H) (root : Node)
    → Table.get text_discrete method r.roots ≡ some root
    → root_of method r ≡ root
root_of-some method r root e = rw (e, root_of)

parse_pattern-nil : parse_pattern [] ≡ []
unfolding parse_pattern text_discrete
parse_pattern-nil = refl

module _ {H : Type 0} (method pattern : Text) (handler : H) (r : Router H) (valid : IsValid r) where
  abbrev pub handlers' : Table Text H
  handlers' = Table.put text_discrete (route_key method pattern) handler r.handlers

  handled-put :
      (k : Text)
      → Table.get text_discrete k r.handlers ≢ none
      → Table.get text_discrete k handlers' ≢ none
  handled-put k h =
      rw (Table.get-put text_discrete k (route_key method pattern) handler r.handlers)
        (elim (text_discrete (route_key method pattern) k) [
          | yes q ↦ rw (if_pos _ q) (λ e. cc)
          | no q ↦ rw (if_neg _ q) h
        ])

  handled_self : Table.get text_discrete (route_key method pattern) handlers' ≢ none
  handled_self =
      rw
        (Table.get-put text_discrete (route_key method pattern) (route_key method pattern) handler
          r.handlers)
        (rw (if_pos (text_discrete (route_key method pattern) (route_key method pattern)) refl)
          (λ e. cc))

  IsRoute-put :
      (m : Text) (d : ℕ) (pat part : Text)
      → IsRoute r.handlers m d pat part
      → IsRoute handlers' m d pat part
  IsRoute-put m d pat part h = record {
    deep = h.deep;
    handled = λ ne. handled-put (route_key m pat) (h.handled ne);
    ends = h.ends;
  }

  empty-IsRoute : (m : Text) → IsRoute handlers' m 0 [] []
  empty-IsRoute m = record {
    deep = λ ne. absurd (ne refl);
    handled = λ ne. absurd (ne refl);
    ends = λ s. cc;
  }

  pub root_of-Every :
      Every (IsRoute handlers' method) 0 (root_of method r) × (part_of (root_of method r) ≡ [])
  root_of-Every = elim (Option-cases (Table.get text_discrete method r.roots)) [
    | inl e ↦
        subst (λ n. Every (IsRoute handlers' method) 0 n × (part_of n ≡ []))
          (sym (root_of-none method r e)) ((empty-IsRoute method, tt), refl)
    | inr (root, e) ↦
        let (h, p) = valid.routes method root e in
        subst (λ n. Every (IsRoute handlers' method) 0 n × (part_of n ≡ []))
          (sym (root_of-some method r root e))
          (
            Every-map (IsRoute r.handlers method) (IsRoute handlers' method) (IsRoute-put method)
                root 0 h,
            p,
          )
  ]

  -- The empty pattern ends at the root itself.
  clear-Every :
      (n n' : Node)
      → pattern ≡ []
      → part_of n ≡ []
      → Every (IsRoute handlers' method) 0 n
      → insert pattern [] n ≡ done n'
      → Every (IsRoute handlers' method) 0 n'
  unfolding insert
  clear-Every (node pat part wild cs) n' z p h e =
      subst (Every (IsRoute handlers' method) 0) (eq_of_done e) (
        subst (λ t. IsRoute handlers' method 0 t part) (sym z)
            (subst (IsRoute handlers' method 0 []) (sym p) (empty-IsRoute method)),
        h.1,
      )

  new-Passed : (ps : List Text) (d : ℕ) → IsParts ps → Passed (IsRoute handlers' method) d ps
  new-Passed [] d h = tt
  new-Passed (p ∷ []) d h = tt
  new-Passed (p ∷ q ∷ ps) d (ne, last, h) = (
    record {
      deep = λ z. absurd (z refl);
      handled = λ z. absurd (z refl);
      ends = λ s. elim last [ inl t ↦ cc | inr e ↦ cc ];
    },
    new-Passed (q ∷ ps) (suc d) h,
  )

  part-insert :
      (ps : List Text) (n n' : Node) → insert pattern ps n ≡ done n' → part_of n' ≡ part_of n
  part-insert ps n n' e = (insert-part pattern ps n n' e).0

  -- The tree with the new pattern.
  inserted-Every :
      (n' : Node)
      → insert pattern (parse_pattern pattern) (root_of method r) ≡ done n'
      → Every (IsRoute handlers' method) 0 n' × (part_of n' ≡ [])
  inserted-Every n' e =
      let (h, p) = root_of-Every in
      (
        elim (text_discrete pattern []) [
          | yes z ↦ clear-Every (root_of method r) n' z p h (
              subst (λ ps. insert pattern ps (root_of method r) ≡ done n')
                (ap parse_pattern z ∙ parse_pattern-nil) e)
          | no z ↦
              insert-Every (IsRoute handlers' method) pattern (parse_pattern pattern) 0
                (root_of method r) n'
                (λ part. record {
                  deep = λ _. omega arith;
                  handled = λ _. handled_self;
                  ends = λ _. z;
                })
                (new-Passed (parse_pattern pattern) 0 (parse_pattern-IsParts pattern))
                (Top-of_Every (IsRoute handlers' method) (parse_pattern pattern) 0
                  (root_of method r) h)
                (EveryIn-of_Every (IsRoute handlers' method) 0 (root_of method r) h) e
        ],
        part-insert (parse_pattern pattern) (root_of method r) n' e ∙ p,
      )

  -- add_route returns, and keeps the invariant.
  pub add_route-IsValid :
      (r' : Router H) × (add_route method pattern handler r ≡ done r') × IsValid r'
  unfolding add_route
  add_route-IsValid =
      let (root, e) =
        insert_total pattern (parse_pattern pattern) (root_of method r)
          (parse_pattern-IsParts pattern) in
      (
        record r { roots = Table.put text_discrete method root r.roots; handlers = handlers' },
        rw (e, add_route),
        record {
          routes = λ m n q. elim (text_discrete method m) [
            | yes same ↦
                let is_root : root ≡ n = eq_of_some (
                  sym (
                    if_pos (text_discrete method m) same (some root)
                      (Table.get text_discrete m r.roots))
                  ∙ sym (Table.get-put text_discrete m method root r.roots)
                  ∙ q) in
                subst (λ x. Every (IsRoute handlers' m) 0 x × (part_of x ≡ [])) is_root
                  (subst (λ t. Every (IsRoute handlers' t) 0 root × (part_of root ≡ [])) same
                    (inserted-Every root e))
            | no other ↦
                let before : Table.get text_discrete m r.roots ≡ some n =
                  sym (
                    if_neg (text_discrete method m) other (some root)
                      (Table.get text_discrete m r.roots))
                  ∙ sym (Table.get-put text_discrete m method root r.roots)
                  ∙ q in
                let (h, p) = valid.routes m n before in
                (Every-map (IsRoute r.handlers m) (IsRoute handlers' m) (IsRoute-put m) n 0 h, p)
          ];
        },
      )
