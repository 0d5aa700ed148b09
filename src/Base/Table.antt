-- ===== src/Base/Table.antt =====
-- A Go map as an association list: reads, writes and `delete`, each with its law for every key.
use mathlib.Core.Path.{◌≡◌, refl, subst}
use mathlib.Core.Logic.{ite, if_pos, if_neg}
use mathlib.Core.List.{List, [], ◌∷◌}
use mathlib.Core.Option.{Option, none, some}
use native.Mathlib.Omega.{arith}

abbrev pub Table {ℓ} : Type ℓ → Type ℓ → Type ℓ
Table K V = List (K × V)

module _ {ℓ} {K V : Type ℓ} (dec : Discrete K) where
  -- v, ok := m[k]
  unfoldable pub get : K → Table K V → Option V
  get k [] = none
  get k ((j, v) ∷ m) = ite (dec j k) (some v) (get k m)

  -- m[k] = v
  unfoldable pub put : K → V → Table K V → Table K V
  put k v [] = (k, v) ∷ []
  put k v ((j, w) ∷ m) = ite (dec j k) ((k, v) ∷ m) ((j, w) ∷ put k v m)

  -- delete(m, k)
  unfoldable pub delete : K → Table K V → Table K V
  delete k [] = []
  delete k ((j, w) ∷ m) = let rest = delete k m in ite (dec j k) rest ((j, w) ∷ rest)

  pub get-put :
      (j k : K) (v : V) (m : Table K V) → get j (put k v m) ≡ ite (dec k j) (some v) (get j m)
  unfolding get put
  get-put j k v [] = refl
  get-put j k v ((i, w) ∷ m) = ground (arith, get-put j k v m)

  pub get-delete : (j k : K) (m : Table K V) → get j (delete k m) ≡ ite (dec k j) none (get j m)
  unfolding get delete
  get-delete j k [] = ground arith
  get-delete j k ((i, w) ∷ m) = ground (arith, get-delete j k m)

  -- No key stands twice, as in a Go map.
  abbrev pub IsUnique : Table K V → Type ℓ
  IsUnique [] = Unit
  IsUnique ((k, v) ∷ m) = (get k m ≡ none) × IsUnique m

  pub put-IsUnique : (k : K) (v : V) (m : Table K V) → IsUnique m → IsUnique (put k v m)
  unfolding get put
  put-IsUnique k v [] h = (refl, tt)
  put-IsUnique k v ((j, w) ∷ m) (n, h) = elim (dec j k) [
    | yes e ↦ rw (if_pos _ e) (subst (λ i. get i m ≡ none) e n, h)
    | no e ↦ rw (if_neg _ e) (ground (arith, get-put j k v m), put-IsUnique k v m h)
  ]

  pub delete-IsUnique : (k : K) (m : Table K V) → IsUnique m → IsUnique (delete k m)
  unfolding get delete
  delete-IsUnique k [] h = tt
  delete-IsUnique k ((j, w) ∷ m) (n, h) = elim (dec j k) [
    | yes e ↦ rw (if_pos _ e) (delete-IsUnique k m h)
    | no e ↦ rw (if_neg _ e) (ground (arith, get-delete j k m), delete-IsUnique k m h)
  ]
