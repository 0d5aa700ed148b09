-- ===== src/GeeWeb/Router/Parts.antt =====
-- The parts of a pattern: none is empty, and a `*` part is the last. So insert never panics on them
-- and the parameters that they bind can be read from any path that is long enough.
use days_golang_master.Base.{
  ℕ, suc, ◌+◌, ◌≤◌, ◌≡◌, ◌≢◌, refl, Text, text_discrete, List, [], ◌∷◌, Run, done, length,
  get_elem?-lt, drop, split, join, codes, if_pos, if_neg, false, arith, Bool-cases, ℕ_discrete,
  dec_le, ◌⊎◌, inl, inr,
}
use days_golang_master.Base.Table
use days_golang_master.Base.Table.{Table}
use days_golang_master.GeeWeb.Trie.{
  Node, Nodes, node, nil, cons, is_star, fits, new_child, change_child, insert,
}
use days_golang_master.GeeWeb.Trie.Keeps.{Passed}
use days_golang_master.GeeWeb.Trie.Inserted.{StarEnds}
use days_golang_master.GeeWeb.Router.{keep_parts, parse_pattern, bind_params}

-- No part is empty, and only the last may begin with `*`.
abbrev pub IsParts : List Text → Type 0
IsParts [] = Unit
IsParts (p ∷ ps) = (p ≢ []) × ((is_star p ≡ false) ⊎ (ps ≡ [])) × IsParts ps

keep_parts-IsParts : (vs : List Text) → IsParts (keep_parts vs)
unfolding keep_parts
keep_parts-IsParts [] = tt
keep_parts-IsParts (v ∷ vs) = elim (text_discrete v []) [
  | yes e ↦ rw (if_pos _ e) (keep_parts-IsParts vs)
  | no n ↦ rw (if_neg _ n) (elim (Bool-cases (is_star v)) [
    | inl s ↦ rw s (n, inr refl, tt)
    | inr s ↦ rw s (n, inl s, keep_parts-IsParts vs)
  ])
]

-- parsePattern gives such parts.
pub parse_pattern-IsParts : (pattern : Text) → IsParts (parse_pattern pattern)
unfolding parse_pattern
parse_pattern-IsParts pattern = keep_parts-IsParts (split b'/' pattern)

pub Passed-of_IsParts : (d : ℕ) (ps : List Text) → IsParts ps → Passed StarEnds d ps
Passed-of_IsParts d [] h = tt
Passed-of_IsParts d (p ∷ []) h = tt
Passed-of_IsParts d (p ∷ q ∷ ps) (ne, last, h) =
    ((λ s. elim last [ inl t ↦ cc | inr e ↦ cc ]), Passed-of_IsParts (suc d) (q ∷ ps) h)

new_child_total : (p : Text) → p ≢ [] → (c : Node) × (new_child p ≡ done c)
unfolding new_child
new_child_total [] ne = absurd (ne refl)
new_child_total (b ∷ s) ne = (_, refl)

-- On such parts insert returns.
change_child_total :
    (f : Node → Run Node) (p : Text)
    → p ≢ []
    → ((c : Node) → (c' : Node) × (f c ≡ done c'))
    → (cs : Nodes) → (cs' : Nodes) × (change_child f p cs ≡ done cs')
unfolding change_child
change_child_total f p ne h nil =
    let (c, made) = new_child_total p ne in
    let (c', e) = h c in (cons c' nil, ground (arith, made, e))
change_child_total f p ne h (cons c cs) = elim (Bool-cases (fits c p)) [
  | inl hit ↦ let (c', e) = h c in (cons c' cs, ground (arith, hit, e))
  | inr miss ↦ let (r, e) = change_child_total f p ne h cs in (cons c r, ground (arith, miss, e))
]

pub insert_total :
    (pat : Text) (ps : List Text) (n : Node)
    → IsParts ps
    → (n' : Node) × (insert pat ps n ≡ done n')
unfolding insert
insert_total pat [] (node _ part wild cs) h = (node pat part wild cs, refl)
insert_total pat (p ∷ ps) (node pat' part wild cs) (ne, _, h) =
    let (cs', e) = change_child_total (insert pat ps) p ne (λ c. insert_total pat ps c h) cs in
    (node pat' part wild cs', rw e)

-- A path with as many parts binds all parameters, with no index out of range.
pub bind_params_total :
    (search_parts ps : List Text) (i : ℕ) (params : Table Text Text)
    → IsParts ps
    → i + length ps ≤ length search_parts
    → (t : Table Text Text) × (bind_params search_parts ps i params ≡ done t)
unfolding bind_params
bind_params_total sp [] i params h le = (params, refl)
bind_params_total sp ([] ∷ ps) i params (ne, _, h) le = absurd (ne refl)
bind_params_total sp ((b ∷ name) ∷ ps) i params (ne, _, h) le =
    let next = λ (t : Table Text Text). bind_params_total sp ps (suc i) t h (omega arith) in
    let (v, ev) = get_elem?-lt sp i (omega arith) in
    elim (ℕ_discrete b b':') [
      | yes c ↦
          let (t, e) = next (Table.put text_discrete name v params) in
          (t, rw (if_pos _ c) (rw ev e))
      | no c ↦ elim (ℕ_discrete b b'*') [
        | no s ↦ let (t, e) = next params in (t, rw (if_neg _ c) (rw (if_neg _ s) e))
        | yes s ↦ elim (text_discrete name []) [
          | yes z ↦
              let (t, e) = next params in (t, rw (if_neg _ c) (rw (if_pos _ s) (rw (if_pos _ z) e)))
          | no z ↦ (
            Table.put text_discrete name (join (codes "/") (drop i sp)) params,
            rw (if_neg _ c) (
                rw (if_pos _ s)
                  (rw (if_neg _ z) (rw (if_pos (dec_le i (length sp)) (omega arith))))),
          )
        ]
      ]
    ]
