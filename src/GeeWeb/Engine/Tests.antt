-- ===== src/GeeWeb/Engine/Tests.antt =====
-- An engine with nested groups, and inputs for the theorem.
use days_golang_master.Base.{
  text_discrete, dec_le, false, ◌≡◌, refl, codes, some, none, List, [], ◌∷◌, ◌++◌, done, true,
  ℕ_discrete, get_elem?,
}
use days_golang_master.Base.Table
use days_golang_master.GeeWeb.Trie
use days_golang_master.GeeWeb.Trie.{node, nil, cons, insert}
use days_golang_master.GeeWeb.Router
use days_golang_master.GeeWeb.Router.{
  new_router, target, get_route, bind_params, parse_pattern, route_key,
}
use days_golang_master.GeeWeb.Context.{Handler, say, next, guarded}
use days_golang_master.GeeWeb.Engine.{
  add_route, RouterGroup, Engine, new, default, group, use_in, use_at, add_middlewares, has_prefix,
  middlewares_for, handlers_for,
}
use days_golang_master.GeeWeb.Engine.Nested.{
  Built, made, grouped, used, handlers_for-inherits, routed, IsLast,
}

-- The groups /v1 and, in it, /admin.
abbrev with_groups : Engine
with_groups = record {
  router = new_router;
  groups =
      record { prefix = []; middlewares = []; parent = none }
      ∷ record { prefix = codes "/v1"; middlewares = []; parent = some 0 }
      ∷ record { prefix = codes "/v1/admin"; middlewares = []; parent = some 1 }
      ∷ [];
}

abbrev with_one : Engine
with_one = record {
  router = new_router;
  groups =
      record { prefix = []; middlewares = []; parent = none }
      ∷ record { prefix = codes "/v1"; middlewares = []; parent = some 0 }
      ∷ [];
}

groups_one : group 0 (codes "/v1") new ≡ done (with_one, 1)
unfolding group new
groups_one = refl

groups_two : group 1 (codes "/admin") with_one ≡ done (with_groups, 2)
unfolding group
groups_two = refl

-- Then the group /v1 uses a middleware.
abbrev nested : Engine
nested = add_middlewares 1 ((say 1 ∷ next ∷ []) ∷ []) with_groups

nested-Built : Built nested
nested-Built =
    used 1 ((say 1 ∷ next ∷ []) ∷ [])
      (grouped 1 2 (codes "/admin") (grouped 0 1 (codes "/v1") made groups_one) groups_two)

-- Then a route of the group /admin.
abbrev served : Engine
served = record nested {
  router = record {
    roots =
        (
          codes "GET",
          node [] [] false (
              cons
                (node [] (codes "v1") false (
                  cons
                    (node [] (codes "admin") false
                      (cons (node (codes "/v1/admin/:x") (codes ":x") true nil) nil))
                    nil))
                nil),
        )
        ∷ [];
    handlers = (codes "GET-/v1/admin/:x", say 7 ∷ []) ∷ [];
  };
}

adds_route : add_route 2 (codes "GET") (codes "/:x") (say 7 ∷ []) nested ≡ done served
unfolding add_route add_middlewares use_at use_in Router.add_route parse_pattern route_key insert
    Trie.change_child Trie.new_child Table.get Table.put text_discrete ℕ_discrete
adds_route = refl

serves_route :
    handlers_for (codes "GET") (codes "/v1/admin/x") served
    ≡ done ((say 1 ∷ next ∷ []) ∷ (say 7 ∷ []) ∷ [])
unfolding handlers_for middlewares_for has_prefix add_middlewares use_at use_in target get_route
    bind_params parse_pattern route_key Trie.search Trie.match_children Trie.first_result Table.get
    Table.put text_discrete ℕ_discrete dec_le
serves_route = refl

served-Built : Built served
served-Built = routed 2 (codes "GET") (codes "/:x") (say 7 ∷ []) nested-Built adds_route

abbrev admin : RouterGroup
admin = record { prefix = codes "/v1/admin"; middlewares = []; parent = some 1 }

admin_place : get_elem? served.groups 2 ≡ some admin
unfolding add_middlewares use_at use_in
admin_place = refl

fits : has_prefix (codes "/v1/admin/x") admin.prefix ≡ true
unfolding has_prefix ℕ_discrete
fits = refl

-- A prefix is one of characters, not of parts.
fits_longer : has_prefix (codes "/v10") (codes "/v1") ≡ true
unfolding has_prefix ℕ_discrete
fits_longer = refl

uses_both : middlewares_for (codes "/") default.groups ≡ (next ∷ []) ∷ (guarded ∷ []) ∷ []
unfolding middlewares_for has_prefix default add_middlewares use_at use_in new
uses_both = refl

handlers_for-inherits_example :
    (p : RouterGroup) × (h : Handler) × (a b c : List Handler) × (get_elem? served.groups 1
      ≡ some p)
    × IsLast (codes "GET") (codes "/v1/admin/x") served.router h
    × (handlers_for (codes "GET") (codes "/v1/admin/x") served
        ≡ done ((a ++ (p.middlewares ++ (b ++ (admin.middlewares ++ c)))) ++ (h ∷ [])))
handlers_for-inherits_example =
    handlers_for-inherits served 2 1 admin (codes "GET") (codes "/v1/admin/x") served-Built
      admin_place refl fits
