-- ===== src/Base/Splitting.antt =====
-- strings.Split and strings.Join of Go undo each other on parts without the separator.
use days_golang_master.Base.{
  ◌≡◌, ◌≢◌, refl, ap, ◌∙◌, ℕ, Text, List, [], ◌∷◌, ◌++◌, All, split, join, if_pos, if_neg,
  ℕ_discrete,
}

pub split-cons : (sep : ℕ) (s : Text) → (u : Text) × (us : List Text) × (split sep s ≡ u ∷ us)
unfolding split
split-cons sep [] = ([], [], refl)
split-cons sep (b ∷ s) =
    let (u, us, e) = split-cons sep s in
    elim (ℕ_discrete b sep) [
      | yes p ↦ ([], u ∷ us, rw e (rw (if_pos _ p) refl))
      | no p ↦ (b ∷ u, us, rw e (rw (if_neg _ p) refl))
    ]

-- A text without the separator is one part.
pub split-last : (sep : ℕ) (t : Text) → All (λ b. b ≢ sep) t → split sep t ≡ t ∷ []
unfolding split
split-last sep [] h = refl
split-last sep (b ∷ t) (n, h) = rw (split-last sep t h) (rw (if_neg _ n) refl)

pub split-append :
    (sep : ℕ) (t s : Text) → All (λ b. b ≢ sep) t → split sep (t ++ sep ∷ s) ≡ t ∷ split sep s
unfolding split
split-append sep [] s h = let (u, us, e) = split-cons sep s in rw e (rw (if_pos _ refl) refl)
split-append sep (b ∷ t) s (n, h) = rw (split-append sep t s h) (rw (if_neg _ n) refl)

-- Splitting what was joined gives the parts again, if there are some.
pub split-join :
    (sep : ℕ) (t : Text) (ts : List Text)
    → All (λ u. All (λ b. b ≢ sep) u) (t ∷ ts)
    → split sep (join (sep ∷ []) (t ∷ ts)) ≡ t ∷ ts
unfolding join
split-join sep t [] (h, _) = split-last sep t h
split-join sep t (u ∷ ts) (h, k) =
    split-append sep t (join (sep ∷ []) (u ∷ ts)) h ∙ ap (◌∷◌ t) (split-join sep u ts k)
