-- ===== src/GeeWeb/Trie.antt =====
-- gee-web/day7-panic-recover/gee/trie.go: the prefix tree of route patterns. A node holds the pattern
-- that ends there ("" for none), its own part of the path, and its children. The methods go from
-- `parts[height]` on: the model hands them `parts[height:]`.
pub mod Keeps
pub mod Finds
pub mod Inserted
pub mod Overwrites
mod Tests
use days_golang_master.Base.{
  ℕ, zero, suc, Text, text_discrete, Option, none, some, List, [], ◌∷◌, ◌++◌, Run, done, panic,
  deref, ◌>>=◌, ite, Bool, true, false, ◌||◌, if◌then◌else◌, ℕ_discrete,
}

mutual
  pub data Node : Type 0 where
    node : Text → Text → Bool → Nodes → Node

  pub data Nodes : Type 0 where
    nil : Nodes
    cons : Node → Nodes → Nodes

abbrev pub pattern_of : Node → Text
pattern_of (node pat part wild cs) = pat

abbrev pub part_of : Node → Text
part_of (node pat part wild cs) = part

abbrev pub is_wild : Node → Bool
is_wild (node pat part wild cs) = wild

abbrev pub children : Node → Nodes
children (node pat part wild cs) = cs

-- s[0] == c, for a text that is not empty
abbrev pub starts : ℕ → Text → Bool
starts c [] = false
starts c (b ∷ s) = ite (ℕ_discrete b c) true false

abbrev pub is_star : Text → Bool
is_star s = starts b'*' s

-- child.part == part || child.isWild
abbrev pub fits : Node → Text → Bool
fits c part = ite (text_discrete (part_of c) part) true (is_wild c)

-- matchChild
unfoldable pub match_child : Text → Nodes → Option Node
match_child part nil = none
match_child part (cons c cs) =
    let rest = match_child part cs in if fits c part then some c else rest

-- matchChildren
unfoldable pub match_children : Text → Nodes → List Node
match_children part nil = []
match_children part (cons c cs) =
    let rest = match_children part cs in if fits c part then c ∷ rest else rest

-- A new child of a part: `part[0]` panics on the empty part.
unfoldable pub new_child : Text → Run Node
new_child [] = panic
new_child (b ∷ s) =
    done (node [] (b ∷ s) (ite (ℕ_discrete b b':') true (ite (ℕ_discrete b b'*') true false)) nil)

-- The child that matchChild gives, or a new one behind the others, changed in place by `f`.
unfoldable pub change_child : (Node → Run Node) → Text → Nodes → Run Nodes
change_child f part nil = do c ← new_child part; c' ← f c; done (cons c' nil)
change_child f part (cons c cs) =
    let here = f c >>= (λ c'. done (cons c' cs)) in
    let there = change_child f part cs >>= (λ cs'. done (cons c cs')) in
    if fits c part then here else there

unfoldable pub insert : Text → List Text → Node → Run Node
insert pat [] (node _ part wild cs) = done (node pat part wild cs)
insert pat (p ∷ ps) (node pat' part wild cs) = do
  cs' ← change_child (insert pat ps) p cs
  done (node pat' part wild cs')

-- The loop over the matching children: the first result that is not nil.
unfoldable pub first_result : (Node → Option Node) → List Node → Option Node
first_result f [] = none
first_result f (c ∷ cs) =
    let rest = first_result f cs in elim (f c) [ some r ↦ some r | none ↦ rest ]

-- nil for a node where no pattern ends
abbrev pub ended : Node → Option Node
ended n = ite (text_discrete (pattern_of n) []) none (some n)

unfoldable pub search : List Text → Node → Option Node
search [] n = ended n
search (p ∷ ps) n =
    let below = first_result (search ps) (match_children p (children n)) in
    if is_star (part_of n) then ended n else below

unfoldable mutual
  pub travel : Node → List Node
  travel (node pat part wild cs) =
      ite (text_discrete pat []) (travel_all cs) (node pat part wild cs ∷ travel_all cs)

  pub travel_all : Nodes → List Node
  travel_all nil = []
  travel_all (cons c cs) = travel c ++ travel_all cs
