-- ===== src/GeeWeb/Trie/Overwrites.antt =====
-- A wildcard child catches the parts that are inserted after it: the pattern that was there is lost.
use days_golang_master.Base.{
  ◌≡◌, ◌≢◌, refl, Text, true, some, [], ◌∷◌, done, ◌>>=◌, arith, false, ℕ_discrete,
}
use days_golang_master.GeeWeb.Trie.{
  Node, node, nil, pattern_of, insert, search, change_child, new_child, match_children,
  first_result,
}

-- With `:name` inserted first and then another part at the same place, every path of one part leads
-- to the second pattern, whatever the part is, and none to the first.
pub search_overwritten :
    (name part q wild_pat pat : Text)
    → pat ≢ []
    → (n : Node) × ((insert wild_pat ((b':' ∷ name) ∷ []) (node [] [] false nil) >>= λ t.
          insert pat (part ∷ []) t >>= λ t'. done (search (q ∷ []) t'))
        ≡ done (some n))
      × (pattern_of n ≡ pat)
unfolding insert search change_child new_child match_children first_result ℕ_discrete
search_overwritten name part q wild_pat pat ne =
    (node pat (b':' ∷ name) true nil, ground (arith, ne), refl)
