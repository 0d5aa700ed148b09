-- ===== src/GeeWeb/Router/Tests.antt =====
-- The router of router_test.go, with numbers for handlers and 0 for nil, and inputs for the theorems.
use days_golang_master.Base.{
  ℕ, ◌≡◌, refl, sym, ◌∙◌, subst, eq_of_done, true, false, ◌⊎◌, Text, codes, join, text_discrete,
  Option, none, some, List, [], ◌∷◌, Run, done, ◌>>=◌, ℕ_discrete, dec_le,
}
use days_golang_master.Base.Table
use days_golang_master.Base.Table.{Table}
use days_golang_master.GeeWeb.Trie
use days_golang_master.GeeWeb.Trie.{Node, node, nil, cons, pattern_of, part_of, is_star, insert}
use days_golang_master.GeeWeb.Router.{
  Router, new_router, parse_pattern, route_key, add_route, bind_params, get_route, Target, route,
  not_found, target,
}
use days_golang_master.GeeWeb.Router.Valid.{IsValid, new_router-IsValid, add_route-IsValid}
use days_golang_master.GeeWeb.Router.Routes.{
  Answer, get_route-Answer, get_route-add_route, get_route_keeps,
}
use days_golang_master.GeeWeb.Router.Handled.{Registration, add_routes, latest, target-handled}

abbrev get_verb : Text
get_verb = codes "GET"

program : Unit {0}
unfolding add_route get_route target parse_pattern route_key bind_params insert Trie.search
    Trie.change_child Trie.new_child Trie.match_children Trie.first_result Table.get Table.put
    text_discrete ℕ_discrete dec_le join
program = tt

parse_tests :
    (parse_pattern (codes "/p/:name") ≡ codes "p" ∷ codes ":name" ∷ [])
    × (parse_pattern (codes "/p/*") ≡ codes "p" ∷ codes "*" ∷ [])
    × (parse_pattern (codes "/p/*name/*") ≡ codes "p" ∷ codes "*name" ∷ [])
unfolding program
parse_tests = (refl, refl, refl)

abbrev routes : Run (Router ℕ)
routes = do
  r1 ← add_route get_verb (codes "/") 1 new_router
  r2 ← add_route get_verb (codes "/hello/:name") 2 r1
  add_route get_verb (codes "/assets/*filepath") 3 r2

route_tests :
    ((routes >>= target 0 get_verb (codes "/hello/geektutu"))
      ≡ done (route 2 ((codes "name", codes "geektutu") ∷ [])))
    × ((routes >>= target 0 get_verb (codes "/assets/css/test.css"))
        ≡ done (route 3 ((codes "filepath", codes "css/test.css") ∷ [])))
    × ((routes >>= target 0 get_verb (codes "/")) ≡ done (route 1 []))
    × ((routes >>= target 0 get_verb (codes "/hello")) ≡ done not_found)
    × ((routes >>= target 0 (codes "POST") (codes "/")) ≡ done not_found)
unfolding program
route_tests = (refl, refl, refl, refl, refl)

-- A router with one route.
abbrev one : Router ℕ
one = record {
  roots =
      (
        get_verb,
        node [] [] false (
            cons
              (node [] (codes "hello") false
                (cons (node (codes "/hello/:name") (codes ":name") true nil) nil))
              nil),
      )
      ∷ [];
  handlers = (codes "GET-/hello/:name", 2) ∷ [];
}

one-added : add_route get_verb (codes "/hello/:name") 2 new_router ≡ done one
unfolding program
one-added = refl

one-IsValid : IsValid one
one-IsValid =
    let (r, e, v) =
      add_route-IsValid get_verb (codes "/hello/:name") 2 new_router new_router-IsValid in
    subst IsValid (eq_of_done (sym e ∙ one-added)) v

one_finds :
    get_route get_verb (codes "/hello/x") one
    ≡ done (
        some (node (codes "/hello/:name") (codes ":name") true nil, (codes "name", codes "x") ∷ []))
unfolding program
one_finds = refl

add_route-IsValid_example :
    (r : Router ℕ) × (add_route get_verb (codes "/hello/b/c") 3 one ≡ done r) × IsValid r
add_route-IsValid_example = add_route-IsValid get_verb (codes "/hello/b/c") 3 one one-IsValid

get_route-Answer_example :
    (o : Option (Node × Table Text Text)) × (get_route get_verb (codes "/hello/x") one ≡ done o)
    × Answer get_verb (codes "/hello/x") one one-IsValid o
get_route-Answer_example = get_route-Answer get_verb (codes "/hello/x") one one-IsValid

-- A handler, a nil handler, and the handler that replaces the first.
abbrev history : List (Registration ℕ)
history =
    record { method = get_verb; pattern = codes "/hello/:name"; handler = 3 }
    ∷ record { method = get_verb; pattern = codes "/"; handler = 0 }
    ∷ record { method = get_verb; pattern = codes "/hello/:name"; handler = 2 }
    ∷ []

runs_latest :
    ((add_routes history >>= target 0 get_verb (codes "/hello/x"))
      ≡ done (route 3 ((codes "name", codes "x") ∷ [])))
    × ((add_routes history >>= target 0 get_verb (codes "/")) ≡ done (route 0 []))
unfolding program
runs_latest = (refl, refl)

target-handled_example :
    (r : Router ℕ) × (t : Target ℕ) × (add_routes history ≡ done r)
    × (target 0 get_verb (codes "/hello/x") r ≡ done t)
    × (((get_route get_verb (codes "/hello/x") r ≡ done none) × (t ≡ not_found))
        ⊎ ((n : Node) × (params : Table Text Text) × (h : ℕ) × (get_route get_verb
                (codes "/hello/x")
                r
              ≡ done (some (n, params)))
            × (latest (route_key get_verb (pattern_of n)) history ≡ some h)
            × (t ≡ route h params)))
target-handled_example = target-handled 0 history get_verb (codes "/hello/x")

get_route-add_route_example :
    (r : Router ℕ) × (n : Node) × (params : Table Text Text) × (add_route get_verb
        (codes "/hi/:name")
        3
        one
      ≡ done r)
    × (get_route get_verb (codes "hi//:name/") r ≡ done (some (n, params)))
    × ((pattern_of n ≡ codes "/hi/:name") ⊎ (Trie.is_star (part_of n) ≡ true))
unfolding program
get_route-add_route_example =
    get_route-add_route get_verb (codes "/hi/:name") 3 one one-IsValid (λ e. cc)
      (codes "hi//:name/") refl

get_route_keeps_example :
    (r : Router ℕ) × (y : Node × Table Text Text) × (add_route get_verb (codes "/hello/b") 3 one
      ≡ done r)
    × (get_route get_verb (codes "/hello/x") r ≡ done (some y))
unfolding program
get_route_keeps_example =
    get_route_keeps get_verb (codes "/hello/b") 3 one one-IsValid (λ e. cc) get_verb
      (codes "/hello/x") _ one_finds
