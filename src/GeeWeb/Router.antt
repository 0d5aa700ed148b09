-- ===== src/GeeWeb/Router.antt =====
-- gee-web/day7-panic-recover/gee/router.go: a prefix tree for each method, the handlers by
-- "method-pattern", and the parameters that a path binds. A handler is a value of any type `H`, which has
-- a nil, as addRoute takes a nil handler too.
pub mod Parts
pub mod Valid
pub mod Routes
pub mod Handled
mod Tests
use days_golang_master.Base.{
  ℕ, zero, suc, ◌+◌, ◌≤◌, Text, codes, split, join, text_discrete, Option, none, some, List, [],
  ◌∷◌, ◌++◌, Run, done, panic, deref, ◌>>=◌, length, get_elem?, drop, ite, Bool, true, false,
  if◌then◌else◌, ℕ_discrete, dec_le,
}
use days_golang_master.Base.Table
use days_golang_master.Base.Table.{Table}
use days_golang_master.GeeWeb.Trie
use days_golang_master.GeeWeb.Trie.{Node, node, nil, pattern_of, starts, is_star, insert, travel}

-- the loop of parsePattern: empty items are dropped, and a `*` item is the last
keep_parts : List Text → List Text
keep_parts [] = []
keep_parts (item ∷ vs) =
    let rest = keep_parts vs in
    ite (text_discrete item []) rest (if is_star item then item ∷ [] else item ∷ rest)

unfoldable pub parse_pattern : Text → List Text
unfolding keep_parts split
parse_pattern pattern = keep_parts (split b'/' pattern)

-- method + "-" + pattern
unfoldable pub route_key : Text → Text → Text
route_key method pattern = method ++ (b'-' ∷ pattern)

pub record Router (H : Type 0) : Type 0 where
  pub roots : Table Text Node
  pub handlers : Table Text H

abbrev pub new_router : {H : Type 0} → Router H
new_router = record { roots = []; handlers = [] }

-- &node{}
abbrev pub empty_root : Node
empty_root = node [] [] false nil

-- r.roots[method], made if it is not there
abbrev pub root_of : {H : Type 0} → Text → Router H → Node
root_of method r = elim (Table.get text_discrete method r.roots) [ none ↦ empty_root | some n ↦ n ]

unfoldable pub add_route : {H : Type 0} → Text → Text → H → Router H → Run (Router H)
add_route method pattern handler r = do
  root ← insert pattern (parse_pattern pattern) (root_of method r)
  done (record r {
    roots = Table.put text_discrete method root r.roots;
    handlers = Table.put text_discrete (route_key method pattern) handler r.handlers;
  })

-- part[1:]
abbrev pub name_of : Text → Text
name_of [] = []
name_of (b ∷ s) = s

-- searchParts[index:], which panics behind the end
abbrev pub slice_from : List Text → ℕ → Run (List Text)
slice_from parts i = ite (dec_le i (length parts)) (done (drop i parts)) panic

-- The loop over the parts of the pattern, from an index on. `part[0]` panics on an empty part.
unfoldable pub bind_params : List Text → List Text → ℕ → Table Text Text → Run (Table Text Text)
bind_params search_parts [] index params = done params
bind_params search_parts ([] ∷ rest) index params = panic
bind_params search_parts ((b ∷ name) ∷ rest) index params =
    let next = bind_params search_parts rest (suc index) in
    ite (ℕ_discrete b b':')
      (do
        value ← deref (get_elem? search_parts index)
        next (Table.put text_discrete name value params))
      (ite (ℕ_discrete b b'*')
        (ite (text_discrete name []) (next params) (do
          tail ← slice_from search_parts index
          done (Table.put text_discrete name (join (codes "/") tail) params)))
        (next params))

unfoldable pub get_route :
    {H : Type 0} → Text → Text → Router H → Run (Option (Node × Table Text Text))
get_route method path r = elim (Table.get text_discrete method r.roots) [
  | none ↦ done none
  | some root ↦ elim (Trie.search (parse_pattern path) root) [
    | none ↦ done none
    | some n ↦ do
      params ← bind_params (parse_pattern path) (parse_pattern (pattern_of n)) 0 []
      done (some (n, params))
  ]
]

unfoldable pub get_routes : {H : Type 0} → Text → Router H → List Node
get_routes method r = elim (Table.get text_discrete method r.roots) [
  | none ↦ []
  | some root ↦ travel root
]

-- What handle puts behind the middlewares: the handler of the route with its parameters, or the
-- handler that answers 404.
pub data Target (H : Type 0) : Type 0 where
  route : H → Table Text Text → Target H
  not_found : Target H

-- r.handlers[key], which without an entry is nil, here `unset`
abbrev pub handler_at : {H : Type 0} → H → Text → Router H → H
handler_at unset key r = elim (Table.get text_discrete key r.handlers) [ none ↦ unset | some h ↦ h ]

unfoldable pub target : {H : Type 0} → H → Text → Text → Router H → Run (Target H)
target unset method path r = do
  found ← get_route method path r
  done (elim found [
    | none ↦ not_found
    | some (n, params) ↦ route (handler_at unset (route_key method (pattern_of n)) r) params
  ])
