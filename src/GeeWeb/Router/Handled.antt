-- ===== src/GeeWeb/Router/Handled.antt =====
-- Which handler a request runs, for a router that was made by a history of calls of addRoute.
use days_golang_master.Base.{
  ◌≡◌, refl, sym, ap, ◌∙◌, ◌⊎◌, inl, inr, Text, text_discrete, Option, none, some, List, [], ◌∷◌,
  Run, done, ◌>>=◌, ite, >>=-eq-done, eq_of_done, arith,
}
use days_golang_master.Base.Table
use days_golang_master.Base.Table.{Table}
use days_golang_master.GeeWeb.Trie.{Node, pattern_of, insert}
use days_golang_master.GeeWeb.Router.{
  Router, new_router, parse_pattern, root_of, route_key, add_route, get_route, Target, route,
  not_found, target,
}
use days_golang_master.GeeWeb.Router.Valid.{IsValid, new_router-IsValid, add_route-IsValid}
use days_golang_master.GeeWeb.Router.Routes.{Answer, missing, found, get_route-Answer}

-- A call of addRoute.
pub record Registration (H : Type 0) : Type 0 where
  pub method : Text
  pub pattern : Text
  pub handler : H

module _ {H : Type 0} where
  -- What handle does on a router: the 404 exactly if getRoute finds nothing, and otherwise the handler
  -- in the map under the method and the pattern that getRoute found, with its parameters.
  pub data Chosen (unset : H) (method path : Text) (r : Router H) : Target H → Type 0 where
    no_route : get_route method path r ≡ done none → Chosen unset method path r not_found
    a_route :
        (n : Node) (params : Table Text Text) (h : H)
        → get_route method path r ≡ done (some (n, params))
        → Table.get text_discrete (route_key method (pattern_of n)) r.handlers ≡ some h
        → Chosen unset method path r (route h params)

  target_of_Answer :
      (unset : H) (method path : Text) (r : Router H) (valid : IsValid r)
      (o : Option (Node × Table Text Text))
      → get_route method path r ≡ done o
      → Answer method path r valid o
      → (t : Target H) × (target unset method path r ≡ done t) × Chosen unset method path r t
  unfolding target
  target_of_Answer unset method path r valid o run missing = (not_found, rw run refl, no_route run)
  target_of_Answer unset method path r valid o run (found n params h ne has le bound) =
      (route h params, ground (arith, run, has), a_route n params h run has)

  pub target-Chosen :
      (unset : H) (method path : Text) (r : Router H)
      → IsValid r
      → (t : Target H) × (target unset method path r ≡ done t) × Chosen unset method path r t
  target-Chosen unset method path r valid =
      let (o, run, a) = get_route-Answer method path r valid in
      target_of_Answer unset method path r valid o run a

  -- The router after calls of addRoute, the latest first.
  abbrev pub add_routes : List (Registration H) → Run (Router H)
  add_routes [] = done new_router
  add_routes (g ∷ gs) = add_routes gs >>= add_route g.method g.pattern g.handler

  -- The handler of the latest of the calls with a method and a pattern that have this key.
  abbrev pub latest : Text → List (Registration H) → Option H
  latest key [] = none
  latest key (g ∷ gs) =
      ite (text_discrete (route_key g.method g.pattern) key) (some g.handler) (latest key gs)

  add_route-handlers :
      (method pattern : Text) (h : H) (r r' : Router H)
      → add_route method pattern h r ≡ done r'
      → r'.handlers ≡ Table.put text_discrete (route_key method pattern) h r.handlers
  unfolding add_route
  add_route-handlers method pattern h r r' e =
      let (root, _, q) =
        >>=-eq-done (insert pattern (parse_pattern pattern) (root_of method r)) _ e in
      ap (λ x. x.handlers) (sym (eq_of_done q))

  -- The calls all return, and the map has the handlers of the latest.
  abbrev pub IsRouterOf : List (Registration H) → Router H → Type 0
  IsRouterOf gs r =
      (add_routes gs ≡ done r)
      × IsValid r
      × ((key : Text) → Table.get text_discrete key r.handlers ≡ latest key gs)

  add_routes-IsRouterOf : (gs : List (Registration H)) → (r : Router H) × IsRouterOf gs r
  unfolding Table.get
  add_routes-IsRouterOf [] = (new_router, (refl, new_router-IsValid, λ key. refl))
  add_routes-IsRouterOf (g ∷ gs) =
      let (r, (run, valid, same)) = add_routes-IsRouterOf gs in
      let (r', run', valid') = add_route-IsValid g.method g.pattern g.handler r valid in
      (
        r',
        (
          rw run run',
          valid',
          λ key.
              ap (Table.get text_discrete key)
                (add_route-handlers g.method g.pattern g.handler r r' run')
              ∙ (Table.get-put text_discrete key (route_key g.method g.pattern) g.handler r.handlers
                  ∙ ap (ite (text_discrete (route_key g.method g.pattern) key) (some g.handler))
                      (same key)),
        ),
      )

  -- After any calls of addRoute, nil handlers among them, a request is answered: with 404 if getRoute
  -- finds nothing; and otherwise by the handler that the latest call with the method of the request and
  -- the pattern that getRoute found was given, nil if that was nil, with the parameters of getRoute. A
  -- call counts as one with this method and pattern if it has the same key "method-pattern".
  pub target-handled :
      (unset : H) (gs : List (Registration H)) (method path : Text)
      → (r : Router H) × (t : Target H) × (add_routes gs ≡ done r)
        × (target unset method path r ≡ done t)
        × (((get_route method path r ≡ done none) × (t ≡ not_found))
            ⊎ ((n : Node) × (params : Table Text Text) × (h : H) × (get_route method path r
                  ≡ done (some (n, params)))
                × (latest (route_key method (pattern_of n)) gs ≡ some h)
                × (t ≡ route h params)))
  target-handled unset gs method path =
      let (r, (run, valid, same)) = add_routes-IsRouterOf gs in
      let (t, answer, c) = target-Chosen unset method path r valid in
      (r, t, run, answer, told r same t c)
    where
      told :
          (r : Router H)
          → ((key : Text) → Table.get text_discrete key r.handlers ≡ latest key gs)
          → (t : Target H) → Chosen unset method path r t
          → ((get_route method path r ≡ done none) × (t ≡ not_found))
            ⊎ ((n : Node) × (params : Table Text Text) × (h : H) × (get_route method path r
                  ≡ done (some (n, params)))
                × (latest (route_key method (pattern_of n)) gs ≡ some h)
                × (t ≡ route h params))
      told r same t (no_route e) = inl (e, refl)
      told r same t (a_route n params h e has) =
          inr (n, params, h, e, sym (same (route_key method (pattern_of n))) ∙ has, refl)
