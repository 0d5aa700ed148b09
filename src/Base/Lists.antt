-- ===== src/Base/Lists.antt =====
-- Lists measured and indexed by native numbers, under the library's names.
use Prim.Native.Nat.{ℕ, zero, suc, ◌+◌, ◌<◌}
use mathlib.Core.Path.{◌≡◌, refl, ap, subst}
use mathlib.Core.Logic.{◌⊎◌, inl, inr}
use mathlib.Core.List.{List, [], ◌∷◌, ◌++◌}
use mathlib.Core.Option.{Option, none, some}
use native.Mathlib.Omega.{arith}
use days_golang_master.Base.Outcome.{eq_of_some, none-ne-some}

-- The empty type of a level.
pub data Nothing {ℓ} : Type ℓ where

module _ {ℓ} {A : Type ℓ} where
  abbrev pub length : List A → ℕ
  length [] = 0
  length (x ∷ xs) = suc (length xs)

  abbrev pub get_elem? : List A → ℕ → Option A
  get_elem? [] i = none
  get_elem? (x ∷ xs) zero = some x
  get_elem? (x ∷ xs) (suc i) = get_elem? xs i

  abbrev pub take : ℕ → List A → List A
  take zero xs = []
  take (suc n) [] = []
  take (suc n) (x ∷ xs) = x ∷ take n xs

  abbrev pub drop : ℕ → List A → List A
  drop zero xs = xs
  drop (suc n) [] = []
  drop (suc n) (x ∷ xs) = drop n xs

  pub length-append : (xs ys : List A) → length (xs ++ ys) ≡ length xs + length ys
  length-append [] ys = omega arith
  length-append (x ∷ xs) ys = omega (arith, length-append xs ys)

  pub take-append-drop : (n : ℕ) (xs : List A) → take n xs ++ drop n xs ≡ xs
  take-append-drop zero xs = refl
  take-append-drop (suc n) [] = refl
  take-append-drop (suc n) (x ∷ xs) = ap (◌∷◌ x) (take-append-drop n xs)

module _ {ℓ κ} {A : Type ℓ} (P : A → Type κ) where
  -- Every element satisfies `P`.
  abbrev pub All : List A → Type κ
  All [] = Unit
  All (x ∷ xs) = P x × All xs

  pub All-append : (xs ys : List A) → All xs → All ys → All (xs ++ ys)
  All-append [] ys h k = k
  All-append (x ∷ xs) ys (p, h) k = (p, All-append xs ys h k)

module _ {ℓ} {A : Type ℓ} where
  -- Membership, as a sum that proofs take apart.
  abbrev pub Has : A → List A → Type ℓ
  Has x [] = Nothing
  Has x (y ∷ ys) = (y ≡ x) ⊎ Has x ys

  pub Has-append : (x : A) (xs ys : List A) → Has x (xs ++ ys) → Has x xs ⊎ Has x ys
  Has-append x [] ys h = inr h
  Has-append x (z ∷ xs) ys (inl e) = inl (inl e)
  Has-append x (z ∷ xs) ys (inr h) = elim (Has-append x xs ys h) [
    | inl p ↦ inl (inr p)
    | inr q ↦ inr q
  ]

  pub Has-append_left : (x : A) (xs ys : List A) → Has x xs → Has x (xs ++ ys)
  Has-append_left x [] ys h = elim h [ ]
  Has-append_left x (z ∷ xs) ys (inl e) = inl e
  Has-append_left x (z ∷ xs) ys (inr h) = inr (Has-append_left x xs ys h)

  pub Has-append_right : (x : A) (xs ys : List A) → Has x ys → Has x (xs ++ ys)
  Has-append_right x [] ys h = h
  Has-append_right x (z ∷ xs) ys h = inr (Has-append_right x xs ys h)

  -- A member stands at an index, and what stands at an index is a member.
  pub Has-index :
      (x : A) (xs : List A) → Has x xs → (i : ℕ) × (i < length xs) × (get_elem? xs i ≡ some x)
  Has-index x [] h = elim h [ ]
  Has-index x (y ∷ xs) (inl e) = (0, omega arith, ap some e)
  Has-index x (y ∷ xs) (inr h) = let (i, lt, e) = Has-index x xs h in (suc i, omega arith, e)

  pub get_elem?-Has : (x : A) (xs : List A) (i : ℕ) → get_elem? xs i ≡ some x → Has x xs
  get_elem?-Has x [] i e = absurd (none-ne-some e)
  get_elem?-Has x (y ∷ xs) zero e = inl (eq_of_some e)
  get_elem?-Has x (y ∷ xs) (suc i) e = inr (get_elem?-Has x xs i e)

  pub get_elem?-lt : (xs : List A) (i : ℕ) → i < length xs → (x : A) × (get_elem? xs i ≡ some x)
  get_elem?-lt [] i h = absurd (omega arith)
  get_elem?-lt (x ∷ xs) zero h = (x, refl)
  get_elem?-lt (x ∷ xs) (suc i) h = get_elem?-lt xs i (omega arith)

  pub All-Has {κ} : (P : A → Type κ) (x : A) (xs : List A) → All P xs → Has x xs → P x
  All-Has P x [] _ h = elim h [ ]
  All-Has P x (y ∷ xs) (p, h) (inl e) = subst P e p
  All-Has P x (y ∷ xs) (p, h) (inr m) = All-Has P x xs h m

  pub All-of_Has {κ} : (P : A → Type κ) (xs : List A) → ((x : A) → Has x xs → P x) → All P xs
  All-of_Has P [] h = tt
  All-of_Has P (x ∷ xs) h = (h x (inl refl), All-of_Has P xs (λ y m. h y (inr m)))
