-- ===== src/GeeWeb/Engine.antt =====
-- gee-web/day7-panic-recover/gee/gee.go: the engine, its groups of routes, and the handlers of a
-- request.
--
-- A group is its place in `groups`, as all groups are put there. Templates, static files and the
-- server itself are left out.

mod Nested
mod Tests
use days_golang_master.Base.{
  ℕ, Text, codes, Option, none, some, List, [], ◌∷◌, ◌++◌, length, get_elem?, Bool, true, false,
  ℕ_discrete, Run, done, panic, spin, ◌>>=◌, deref, ite, zero, suc,
}
use days_golang_master.GeeWeb.Router
use days_golang_master.GeeWeb.Router.{Router, Target, route, not_found, target, new_router}
use days_golang_master.GeeWeb.Context.{Handler, Ended, run_chain, say, next, guarded, crash}

pub record RouterGroup : Type 0 where
  pub prefix : Text
  pub middlewares : List Handler
  pub parent : Option ℕ

pub record Engine : Type 0 where
  pub router : Router Handler
  pub groups : List RouterGroup

-- New; the engine's own group is the first.
unfoldable pub new : Engine
new = record {
  router = new_router;
  groups = record { prefix = []; middlewares = []; parent = none } ∷ [];
}

-- Group, with the place of the new group.
unfoldable pub group : ℕ → Text → Engine → Run (Engine × ℕ)
group i prefix e = do
  g ← deref (get_elem? e.groups i)
  done (
    record e {
      groups =
          e.groups
          ++ (record { prefix = g.prefix ++ prefix; middlewares = []; parent = some i } ∷ []);
    },
    length e.groups,
  )

unfoldable pub use_in : List Handler → RouterGroup → RouterGroup
use_in hs g = record g { middlewares = g.middlewares ++ hs }

-- Use of the group at a place.
unfoldable pub use_at : ℕ → List Handler → List RouterGroup → List RouterGroup
use_at i hs [] = []
use_at zero hs (g ∷ gs) = use_in hs g ∷ gs
use_at (suc i) hs (g ∷ gs) = g ∷ use_at i hs gs

unfoldable pub add_middlewares : ℕ → List Handler → Engine → Engine
add_middlewares i hs e = record e { groups = use_at i hs e.groups }

-- Default: Logger calls Next and writes to the log, Recovery calls Next and recovers.
unfoldable pub default : Engine
default = add_middlewares 0 ((next ∷ []) ∷ (guarded ∷ []) ∷ []) new

unfoldable pub add_route : ℕ → Text → Text → Handler → Engine → Run Engine
add_route i method comp handler e = do
  g ← deref (get_elem? e.groups i)
  router ← Router.add_route method (g.prefix ++ comp) handler e.router
  done (record e { router = router })

-- strings.HasPrefix
unfoldable pub has_prefix : Text → Text → Bool
has_prefix s [] = true
has_prefix [] (b ∷ p) = false
has_prefix (c ∷ s) (b ∷ p) = let rest = has_prefix s p in ite (ℕ_discrete c b) rest false

-- The loop of ServeHTTP.
unfoldable pub middlewares_for : Text → List RouterGroup → List Handler
middlewares_for path [] = []
middlewares_for path (g ∷ gs) =
    let rest = middlewares_for path gs in
    elim (has_prefix path g.prefix) [ true ↦ g.middlewares ++ rest | false ↦ rest ]

-- http.StatusNotFound
abbrev pub status_not_found : ℕ
status_not_found = 404

-- A nil handler panics when it is called.
abbrev pub nil_handler : Handler
nil_handler = crash ∷ []

-- What handle appends.
abbrev pub last_handler : Target Handler → Handler
last_handler (route h params) = h
last_handler not_found = say status_not_found ∷ []

unfoldable pub handlers_for : Text → Text → Engine → Run (List Handler)
handlers_for method path e = do
  t ← target nil_handler method path e.router
  done (middlewares_for path e.groups ++ (last_handler t ∷ []))

-- ServeHTTP, with a bound on the nesting of Next.
unfoldable pub serve_http : ℕ → Text → Text → Engine → Run Ended
serve_http rounds method path e = do hs ← handlers_for method path e; done (run_chain rounds hs)
