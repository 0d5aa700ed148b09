-- ===== src/GeeWeb/Engine/Nested.antt =====
-- Nested groups of gee-web/day7-panic-recover/gee/gee.go: what a group inherits from its parent.
use days_golang_master.Base.{
  text_discrete, ℕ, zero, suc, ◌<◌, ◌≡◌, refl, sym, ap, ◌∙◌, ◌⊎◌, inl, inr, subst, Text, none, some,
  List, [], ◌∷◌, ◌++◌, length, get_elem?, true, false, ℕ_discrete, done, panic, arith, if_pos,
  if_neg, append_assoc, none-ne-some, eq_of_some, Bool-cases, Option-cases, deref, >>=-eq-done,
  eq_of_done,
}
use days_golang_master.GeeWeb.Router
use days_golang_master.GeeWeb.Trie.{Node, pattern_of}
use days_golang_master.Base.Table
use days_golang_master.Base.Table.{Table}
use days_golang_master.GeeWeb.Router.{Router, Target, get_route, route_key}
use days_golang_master.GeeWeb.Router.Valid.{IsValid, new_router-IsValid, add_route-IsValid}
use days_golang_master.GeeWeb.Router.Handled.{Chosen, no_route, a_route, target-Chosen}
use days_golang_master.GeeWeb.Context.{Handler, say}
use days_golang_master.GeeWeb.Engine.{
  RouterGroup, Engine, new, group, use_in, use_at, add_middlewares, add_route, has_prefix,
  middlewares_for, last_handler, nil_handler, handlers_for,
}

-- The engines that the operations make.
pub data Built : Engine → Type 0 where
  made : Built new
  grouped :
      {e e' : Engine} (i j : ℕ) (prefix : Text)
      → Built e
      → group i prefix e ≡ done (e', j)
      → Built e'
  used : {e : Engine} (i : ℕ) (hs : List Handler) → Built e → Built (add_middlewares i hs e)
  routed :
      {e e' : Engine} (i : ℕ) (method comp : Text) (h : Handler)
      → Built e
      → add_route i method comp h e ≡ done e'
      → Built e'

-- The parent of the group at a place stands before it, and its prefix is a front of the group's.
pub record HasParent (gs : List RouterGroup) (j : ℕ) (g : RouterGroup) (i : ℕ) : Type 0 where
  pub before : i < j
  pub parent_group : RouterGroup
  pub at_place : get_elem? gs i ≡ some parent_group
  pub more : Text
  pub extends : g.prefix ≡ parent_group.prefix ++ more

abbrev pub IsNested : List RouterGroup → Type 0
IsNested gs =
    (j i : ℕ) (g : RouterGroup) → get_elem? gs j ≡ some g → g.parent ≡ some i → HasParent gs j g i

get_elem?-front :
    (gs r : List RouterGroup) (i : ℕ) (p : RouterGroup)
    → get_elem? gs i ≡ some p
    → (get_elem? (gs ++ r) i ≡ some p) × (i < length gs)
get_elem?-front [] r i p e = absurd (none-ne-some e)
get_elem?-front (g ∷ gs) r zero p e = (e, omega arith)
get_elem?-front (g ∷ gs) r (suc i) p e =
    let (h, k) = get_elem?-front gs r i p e in (h, omega (arith, k))

get_elem?-last :
    (gs : List RouterGroup) (x : RouterGroup) (j : ℕ) (g : RouterGroup)
    → get_elem? (gs ++ (x ∷ [])) j ≡ some g
    → (get_elem? gs j ≡ some g) ⊎ ((j ≡ length gs) × (x ≡ g))
get_elem?-last [] x zero g e = inr (refl, eq_of_some e)
get_elem?-last [] x (suc j) g e = absurd (none-ne-some e)
get_elem?-last (y ∷ gs) x zero g e = inl e
get_elem?-last (y ∷ gs) x (suc j) g e = elim (get_elem?-last gs x j g e) [
  | inl h ↦ inl h
  | inr (p, q) ↦ inr (ap suc p, q)
]

-- Use changes only the middlewares of one group.
abbrev IsSame : RouterGroup → RouterGroup → Type 0
IsSame g g' = (g'.prefix ≡ g.prefix) × (g'.parent ≡ g.parent)

use_at-back :
    (i : ℕ) (hs : List Handler) (gs : List RouterGroup) (j : ℕ) (g' : RouterGroup)
    → get_elem? (use_at i hs gs) j ≡ some g'
    → (g : RouterGroup) × (get_elem? gs j ≡ some g) × IsSame g g'
unfolding use_at use_in
use_at-back i hs [] j g' e = absurd (none-ne-some e)
use_at-back zero hs (g ∷ gs) zero g' e =
    (g, refl, (ap (λ o. o.prefix) (sym (eq_of_some e)), ap (λ o. o.parent) (sym (eq_of_some e))))
use_at-back zero hs (g ∷ gs) (suc j) g' e = (g', e, (refl, refl))
use_at-back (suc i) hs (g ∷ gs) zero g' e = (g', e, (refl, refl))
use_at-back (suc i) hs (g ∷ gs) (suc j) g' e = use_at-back i hs gs j g' e

use_at-there :
    (i : ℕ) (hs : List Handler) (gs : List RouterGroup) (j : ℕ) (g : RouterGroup)
    → get_elem? gs j ≡ some g
    → (g' : RouterGroup) × (get_elem? (use_at i hs gs) j ≡ some g') × IsSame g g'
unfolding use_at use_in
use_at-there i hs [] j g e = absurd (none-ne-some e)
use_at-there zero hs (x ∷ gs) zero g e =
    (use_in hs x, refl, (ap (λ o. o.prefix) (eq_of_some e), ap (λ o. o.parent) (eq_of_some e)))
use_at-there zero hs (x ∷ gs) (suc j) g e = (g, e, (refl, refl))
use_at-there (suc i) hs (x ∷ gs) zero g e = (g, e, (refl, refl))
use_at-there (suc i) hs (x ∷ gs) (suc j) g e = use_at-there i hs gs j g e

use_at-IsNested :
    (i : ℕ) (hs : List Handler) (gs : List RouterGroup) → IsNested gs → IsNested (use_at i hs gs)
use_at-IsNested i hs gs h j k g' e p =
    let (g, at', (same, parent)) = use_at-back i hs gs j g' e in
    let up = h j k g at' (sym parent ∙ p) in
    let (q, there, (prefix, _)) = use_at-there i hs gs k up.parent_group up.at_place in
    record {
      before = up.before;
      parent_group = q;
      at_place = there;
      more = up.more;
      extends = same ∙ (up.extends ∙ ap (λ t. t ++ up.more) (sym prefix));
    }

group-IsNested :
    (gs : List RouterGroup) (i : ℕ) (g : RouterGroup) (prefix : Text)
    → get_elem? gs i ≡ some g
    → IsNested gs
    → IsNested
        (gs ++ (record { prefix = g.prefix ++ prefix; middlewares = []; parent = some i } ∷ []))
group-IsNested gs i g prefix e h j k x at' p = elim (get_elem?-last gs _ j x at') [
  | inl old ↦
      let up = h j k x old p in
      record {
        before = up.before;
        parent_group = up.parent_group;
        at_place = (get_elem?-front gs _ k up.parent_group up.at_place).0;
        more = up.more;
        extends = up.extends;
      }
  | inr (q, same) ↦
      let here = eq_of_some (ap (λ o. o.parent) same ∙ p) in
      record {
        before = rw (sym here, q) (get_elem?-front gs [] i g e).1;
        parent_group = g;
        at_place =
            subst
              (λ n.
                get_elem?
                  (gs
                    ++ (record { prefix = g.prefix ++ prefix; middlewares = []; parent = some i }
                        ∷ []))
                  n
                ≡ some g)
              here (get_elem?-front gs _ i g e).0;
        more = prefix;
        extends = sym (ap (λ o. o.prefix) same);
      }
]

group-none :
    (i : ℕ) (prefix : Text) (e : Engine) → get_elem? e.groups i ≡ none → group i prefix e ≡ panic
unfolding group
group-none i prefix e n = rw n refl

group-some :
    (i : ℕ) (prefix : Text) (e : Engine) (g : RouterGroup)
    → get_elem? e.groups i ≡ some g
    → group i prefix e
      ≡ done (
        record e {
          groups =
              e.groups
              ++ (record { prefix = g.prefix ++ prefix; middlewares = []; parent = some i } ∷ []);
        },
        length e.groups,
      )
unfolding group
group-some i prefix e g s = rw s refl

panic-ne-done : {A : Type 0} {a : A} → panic ≡ done a → ⊥
panic-ne-done h = cc

grouped-IsNested :
    (e e' : Engine) (i j : ℕ) (prefix : Text)
    → IsNested e.groups
    → group i prefix e ≡ done (e', j)
    → IsNested e'.groups
grouped-IsNested e e' i j prefix h run = elim (Option-cases (get_elem? e.groups i)) [
  | inl n ↦ absurd (panic-ne-done (sym (group-none i prefix e n) ∙ run))
  | inr (g, at') ↦
      subst (λ x. IsNested x.groups)
        (ap (λ o. o.0) (eq_of_done (sym (group-some i prefix e g at') ∙ run)))
        (group-IsNested e.groups i g prefix at' h)
]

routed_same :
    (e e' : Engine) (i : ℕ) (method comp : Text) (h : Handler)
    → add_route i method comp h e ≡ done e'
    → e'.groups ≡ e.groups
unfolding add_route
routed_same e e' i method comp h run =
    let (g, _, next) = >>=-eq-done (deref (get_elem? e.groups i)) _ run in
    let (r, _, last) = >>=-eq-done (Router.add_route method (g.prefix ++ comp) h e.router) _ next in
    ap (λ o. o.groups) (sym (eq_of_done last))

new-IsNested : IsNested new.groups
unfolding new
new-IsNested zero i g at' p = absurd (none-ne-some (ap (λ o. o.parent) (eq_of_some at') ∙ p))
new-IsNested (suc j) i g at' p = absurd (none-ne-some at')

Built-IsNested : (e : Engine) → Built e → IsNested e.groups
unfolding new add_middlewares
Built-IsNested e made = new-IsNested
Built-IsNested e (grouped i j prefix b run) =
    grouped-IsNested _ e i j prefix (Built-IsNested _ b) run
Built-IsNested e (used {e = d} i hs b) = use_at-IsNested i hs d.groups (Built-IsNested _ b)
Built-IsNested e (routed i method comp h b run) =
    subst IsNested (sym (routed_same _ e i method comp h run)) (Built-IsNested _ b)

has_prefix-front : (s p q : Text) → has_prefix s (p ++ q) ≡ true → has_prefix s p ≡ true
unfolding has_prefix
has_prefix-front s [] q h = refl
has_prefix-front [] (b ∷ p) q h = cc
has_prefix-front (c ∷ s) (b ∷ p) q h = elim (ℕ_discrete c b) [
  | yes e ↦ rw (if_pos _ e) (has_prefix-front s p q (rw (if_pos _ e) at h))
  | no n ↦ let wrong : false ≡ true = rw (if_neg _ n) at h in cc
]

taken :
    (path : Text) (x : RouterGroup) (gs : List RouterGroup)
    → has_prefix path x.prefix ≡ true
    → middlewares_for path (x ∷ gs) ≡ x.middlewares ++ middlewares_for path gs
unfolding middlewares_for
taken path x gs t = ground (arith, t)

passed :
    (path : Text) (x : RouterGroup) (gs : List RouterGroup)
    → has_prefix path x.prefix ≡ false
    → middlewares_for path (x ∷ gs) ≡ middlewares_for path gs
unfolding middlewares_for
passed path x gs f = ground (arith, f)

-- The middlewares of one group among those of a request.
found_one :
    (path : Text) (gs : List RouterGroup) (j : ℕ) (g : RouterGroup)
    → get_elem? gs j ≡ some g
    → has_prefix path g.prefix ≡ true
    → (a c : List Handler) × (middlewares_for path gs ≡ a ++ (g.middlewares ++ c))
found_one path [] j g e h = absurd (none-ne-some e)
found_one path (x ∷ gs) zero g e h =
    let same = eq_of_some e in
    (
      [],
      middlewares_for path gs,
      taken path x gs (rw same h) ∙ ap (λ o. o.middlewares ++ middlewares_for path gs) same,
    )
found_one path (x ∷ gs) (suc j) g e h =
    let (a, c, k) = found_one path gs j g e h in
    elim (Bool-cases (has_prefix path x.prefix)) [
      | inl t ↦ (
        x.middlewares ++ a,
        c,
        taken path x gs t
            ∙ (ap (λ l. x.middlewares ++ l) k
                ∙ sym (append_assoc x.middlewares a (g.middlewares ++ c))),
      )
      | inr f ↦ (a, c, passed path x gs f ∙ k)
    ]

-- Those of two groups, in the order of their places.
found_two :
    (path : Text) (gs : List RouterGroup) (i j : ℕ) (p g : RouterGroup)
    → i < j
    → get_elem? gs i ≡ some p
    → get_elem? gs j ≡ some g
    → has_prefix path p.prefix ≡ true
    → has_prefix path g.prefix ≡ true
    → (a b c : List Handler) × (middlewares_for path gs
        ≡ a ++ (p.middlewares ++ (b ++ (g.middlewares ++ c))))
found_two path [] i j p g l e f h k = absurd (none-ne-some e)
found_two path (x ∷ gs) i zero p g l e f h k = absurd (omega (arith, l))
found_two path (x ∷ gs) zero (suc j) p g l e f h k =
    let same = eq_of_some e in
    let (b, c, m) = found_one path gs j g f k in
    (
      [],
      b,
      c,
      taken path x gs (rw same h)
          ∙ (ap (λ o. o.middlewares ++ middlewares_for path gs) same
              ∙ ap (λ l'. p.middlewares ++ l') m),
    )
found_two path (x ∷ gs) (suc i) (suc j) p g l e f h k =
    let (a, b, c, m) = found_two path gs i j p g (omega (arith, l)) e f h k in
    elim (Bool-cases (has_prefix path x.prefix)) [
      | inl t ↦ (
        x.middlewares ++ a,
        b,
        c,
        taken path x gs t
            ∙ (ap (λ l'. x.middlewares ++ l') m ∙ sym (append_assoc x.middlewares a _)),
      )
      | inr n ↦ (a, b, c, passed path x gs n ∙ m)
    ]

routed-IsValid :
    (e e' : Engine) (i : ℕ) (method comp : Text) (h : Handler)
    → IsValid e.router
    → add_route i method comp h e ≡ done e'
    → IsValid e'.router
unfolding add_route
routed-IsValid e e' i method comp h valid run =
    let (g, _, next) = >>=-eq-done (deref (get_elem? e.groups i)) _ run in
    let (r, ran, last) =
      >>=-eq-done (Router.add_route method (g.prefix ++ comp) h e.router) _ next in
    let (r', ran', v) = add_route-IsValid method (g.prefix ++ comp) h e.router valid in
    subst (λ o. IsValid o.router) (eq_of_done last) (subst IsValid (eq_of_done (sym ran' ∙ ran)) v)

grouped_same :
    (e e' : Engine) (i j : ℕ) (prefix : Text)
    → group i prefix e ≡ done (e', j)
    → e'.router ≡ e.router
unfolding group
grouped_same e e' i j prefix run =
    let (g, _, last) = >>=-eq-done (deref (get_elem? e.groups i)) _ run in
    ap (λ o. o.0.router) (sym (eq_of_done last))

Built-IsValid : (e : Engine) → Built e → IsValid e.router
unfolding new add_middlewares
Built-IsValid e made = new_router-IsValid
Built-IsValid e (grouped i j prefix b run) =
    subst IsValid (sym (grouped_same _ e i j prefix run)) (Built-IsValid _ b)
Built-IsValid e (used {e = d} i hs b) = Built-IsValid d b
Built-IsValid e (routed i method comp h b run) =
    routed-IsValid _ e i method comp h (Built-IsValid _ b) run

-- The last handler of a request: what answers 404 if getRoute finds nothing, and otherwise the handler
-- that the map of the router has under the method and the pattern that getRoute found.
abbrev pub IsLast : Text → Text → Router Handler → Handler → Type 0
IsLast method path r h =
    ((get_route method path r ≡ done none) × (h ≡ say 404 ∷ []))
    ⊎ ((n : Node) × (params : Table Text Text) × (get_route method path r ≡ done (some (n, params)))
        × (Table.get text_discrete (route_key method (pattern_of n)) r.handlers ≡ some h))

Chosen-IsLast :
    (method path : Text) (r : Router Handler) (t : Target Handler)
    → Chosen nil_handler method path r t
    → IsLast method path r (last_handler t)
Chosen-IsLast method path r t (no_route e) = inl (e, refl)
Chosen-IsLast method path r t (a_route n params h e has) = inr (n, params, e, has)

-- A request always gets its handlers.
handlers_for-middlewares :
    (method path : Text) (e : Engine)
    → IsValid e.router
    → (h : Handler) × IsLast method path e.router h
      × (handlers_for method path e ≡ done (middlewares_for path e.groups ++ (h ∷ [])))
unfolding handlers_for
handlers_for-middlewares method path e valid =
    let (t, run, c) = target-Chosen nil_handler method path e.router valid in
    (last_handler t, Chosen-IsLast method path e.router t c, rw run refl)

-- In an engine that its operations made: every request whose path starts with the prefix of a nested
-- group gets its handlers, and they are, in this order and maybe with others between, the middlewares
-- of the group's parent, those of the group, and at the end one more: what answers 404 if getRoute
-- finds nothing, and otherwise the handler that is stored for the method and the pattern that getRoute
-- found.
pub handlers_for-inherits :
    (e : Engine) (j i : ℕ) (g : RouterGroup) (method path : Text)
    → Built e
    → get_elem? e.groups j ≡ some g
    → g.parent ≡ some i
    → has_prefix path g.prefix ≡ true
    → (p : RouterGroup) × (h : Handler) × (a b c : List Handler) × (get_elem? e.groups i ≡ some p)
      × IsLast method path e.router h
      × (handlers_for method path e
          ≡ done ((a ++ (p.middlewares ++ (b ++ (g.middlewares ++ c)))) ++ (h ∷ [])))
handlers_for-inherits e j i g method path built at' parent fits =
    let up = Built-IsNested e built j i g at' parent in
    let p = up.parent_group in
    let (a, b, c, m) =
      found_two path e.groups i j p g up.before up.at_place at'
        (has_prefix-front path p.prefix up.more (rw up.extends at fits)) fits in
    let (h, last, run) = handlers_for-middlewares method path e (Built-IsValid e built) in
    (p, h, a, b, c, up.at_place, last, run ∙ ap (λ l. done (l ++ (h ∷ []))) m)
