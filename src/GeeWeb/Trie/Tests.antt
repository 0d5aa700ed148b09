-- ===== src/GeeWeb/Trie/Tests.antt =====
-- A small prefix tree, and inputs for the theorems.
use days_golang_master.Base.{
  ◌≡◌, ◌≢◌, refl, ◌⊎◌, inl, codes, text_discrete, ℕ_discrete, none, some, [], ◌∷◌, done, ◌>>=◌,
  true, false,
}
use days_golang_master.GeeWeb.Trie.{
  Node, node, nil, cons, pattern_of, part_of, is_star, insert, change_child, new_child,
  match_children, first_result, search,
}
use days_golang_master.GeeWeb.Trie.Finds.{Reaches, search-Reaches, search-none, stop, step}
use days_golang_master.GeeWeb.Trie.Inserted.{search-insert, search-insert_keeps}
use days_golang_master.GeeWeb.Trie.Overwrites.{search_overwritten}

program : Unit {0}
unfolding insert change_child new_child match_children first_result search text_discrete ℕ_discrete
program = tt

-- /a/:x and /b
abbrev leaf : Node
leaf = node (codes "/a/:x") (codes ":x") true nil

abbrev tree : Node
tree = node [] [] false (
    cons (node [] (codes "a") false (cons leaf nil))
      (cons (node (codes "/b") (codes "b") false nil) nil))

abbrev bigger : Node
bigger = node [] [] false (
    cons (node [] (codes "a") false (cons leaf nil)) (
      cons
        (node (codes "/b") (codes "b") false (cons (node (codes "/b/c") (codes "c") false nil) nil))
        nil))

search_tests :
    (search (codes "a" ∷ codes "q" ∷ []) tree ≡ some leaf)
    × (search (codes "a" ∷ []) tree ≡ none)
    × (insert (codes "/b/c") (codes "b" ∷ codes "c" ∷ []) tree ≡ done bigger)
unfolding program
search_tests = (refl, refl, refl)

search-Reaches_example : Reaches tree (codes "a" ∷ codes "q" ∷ []) leaf × (pattern_of leaf ≢ [])
search-Reaches_example = search-Reaches (codes "a" ∷ codes "q" ∷ []) tree leaf search_tests.0

search-none_example : pattern_of (node [] (codes "a") false (cons leaf nil)) ≡ []
unfolding text_discrete ℕ_discrete
search-none_example =
    search-none (codes "a" ∷ []) tree (node [] (codes "a") false (cons leaf nil)) search_tests.1
      (step tree _ (codes "a") [] _ refl (inl refl) refl (stop _))

search-insert_example :
    (m : Node) × (search (codes "b" ∷ codes "c" ∷ []) bigger ≡ some m)
    × ((pattern_of m ≡ codes "/b/c") ⊎ (is_star (part_of m) ≡ true))
unfolding ℕ_discrete
search-insert_example =
    search-insert (codes "/b/c") (codes "b" ∷ codes "c" ∷ []) 0 tree bigger (λ e. cc)
      ((λ e. cc), tt) (λ e. cc) (((λ e. cc), (((λ e. cc), tt), tt)), (((λ e. cc), tt), tt))
      search_tests.2

search-insert_keeps_example : search (codes "a" ∷ codes "q" ∷ []) bigger ≢ none
unfolding program
search-insert_keeps_example =
    search-insert_keeps (codes "a" ∷ codes "q" ∷ []) (codes "/b/c") (codes "b" ∷ codes "c" ∷ [])
      tree bigger (λ e. cc) refl (λ e. cc)

search_overwritten_example :
    (n : Node) × ((insert (codes "/:id") (codes ":id" ∷ []) (node [] [] false nil) >>= λ t.
    insert (codes "/new") (codes "new" ∷ []) t >>= λ t'. done (search (codes "42" ∷ []) t'))
      ≡ done (some n))
    × (pattern_of n ≡ codes "/new")
search_overwritten_example =
    search_overwritten (codes "id") (codes "new") (codes "42") (codes "/:id") (codes "/new")
      (λ e. cc)
