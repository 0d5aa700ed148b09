-- ===== src/GeeRpc/Client/Count.antt =====
-- How often a call stands in the table of pending calls and in the lists of
-- gee-rpc/day7-registry/client.go.
use days_golang_master.Base.{
  ℕ, ◌+◌, ◌<◌, ◌≡◌, refl, Option, none, some, List, [], ◌∷◌, ◌++◌, map, ite, arith, ℕ_discrete,
  if_pos, if_neg, ap, sym, subst,
}
use days_golang_master.Base.Table
use days_golang_master.Base.Table.{Table, get-put}
use days_golang_master.GeeRpc.Client.{Outcome, terminated}

abbrev pub one_if : ℕ → ℕ → ℕ
one_if i j = ite (ℕ_discrete j i) 1 0

abbrev pub count : ℕ → List ℕ → ℕ
count i [] = 0
count i (j ∷ js) = one_if i j + count i js

abbrev pub count_pending : ℕ → Table ℕ ℕ → ℕ
count_pending i [] = 0
count_pending i ((s, j) ∷ m) = one_if i j + count_pending i m

abbrev pub count_finished : ℕ → List (ℕ × Outcome) → ℕ
count_finished i [] = 0
count_finished i ((j, o) ∷ l) = one_if i j + count_finished i l

-- The call that was removed, if there was one.
abbrev pub count_found : ℕ → Option ℕ → ℕ
count_found i none = 0
count_found i (some j) = one_if i j

pub count-put :
    (i s j : ℕ) (m : Table ℕ ℕ)
    → Table.get ℕ_discrete s m ≡ none
    → count_pending i (Table.put ℕ_discrete s j m) ≡ one_if i j + count_pending i m
unfolding Table.put Table.get
count-put i s j [] e = refl
count-put i s j ((r, k) ∷ m) e = elim (ℕ_discrete r s) [
  | yes p ↦ absurd (ground arith)
  | no p ↦ rw (if_neg _ p) (omega (arith, count-put i s j m (rw (if_neg _ p) at e)))
]

delete_absent :
    (s : ℕ) (m : Table ℕ ℕ) → Table.get ℕ_discrete s m ≡ none → Table.delete ℕ_discrete s m ≡ m
unfolding Table.delete Table.get
delete_absent s [] e = refl
delete_absent s ((r, k) ∷ m) e = elim (ℕ_discrete r s) [
  | yes p ↦ absurd (ground arith)
  | no p ↦ rw (if_neg _ p) (ap (◌∷◌ (r, k)) (delete_absent s m (rw (if_neg _ p) at e)))
]

pub count-delete :
    (i s : ℕ) (m : Table ℕ ℕ)
    → Table.IsUnique ℕ_discrete m
    → count_pending i m
      ≡ count_found i (Table.get ℕ_discrete s m) + count_pending i (Table.delete ℕ_discrete s m)
unfolding Table.delete Table.get
count-delete i s [] h = refl
count-delete i s ((r, k) ∷ m) (n, h) = elim (ℕ_discrete r s) [
  | yes p ↦ rw (if_pos _ p) (
      rw (if_pos _ p) (
        ap (λ l. one_if i k + count_pending i l)
          (sym (delete_absent s m (subst (λ t. Table.get ℕ_discrete t m ≡ none) p n)))))
  | no p ↦ rw (if_neg _ p) (rw (if_neg _ p) (omega (arith, count-delete i s m h)))
]

pub count_terminated :
    (i e : ℕ) (m : Table ℕ ℕ) (l : List (ℕ × Outcome))
    → count_finished i (map (λ (seq, call). (call, terminated e)) m ++ l)
      ≡ count_pending i m + count_finished i l
count_terminated i e [] l = omega arith
count_terminated i e ((s, j) ∷ m) l = omega (arith, count_terminated i e m l)

-- The numbers of the pending calls are below the next one.
abbrev pub IsBelow : ℕ → Table ℕ ℕ → Type 0
IsBelow n [] = Unit
IsBelow n ((s, j) ∷ m) = (s < n) × IsBelow n m

pub get-IsBelow : (n : ℕ) (m : Table ℕ ℕ) → IsBelow n m → Table.get ℕ_discrete n m ≡ none
unfolding Table.get
get-IsBelow n [] h = refl
get-IsBelow n ((s, j) ∷ m) (lt, h) = elim (ℕ_discrete s n) [
  | yes p ↦ absurd (omega arith)
  | no p ↦ rw (if_neg _ p) (get-IsBelow n m h)
]

pub put-IsBelow :
    (n j : ℕ) (m : Table ℕ ℕ) → IsBelow n m → IsBelow (n + 1) (Table.put ℕ_discrete n j m)
unfolding Table.put
put-IsBelow n j [] h = (omega arith, tt)
put-IsBelow n j ((s, k) ∷ m) (lt, h) = elim (ℕ_discrete s n) [
  | yes p ↦ absurd (omega arith)
  | no p ↦ rw (if_neg _ p) (omega arith, put-IsBelow n j m h)
]

pub delete-IsBelow :
    (n s : ℕ) (m : Table ℕ ℕ) → IsBelow n m → IsBelow n (Table.delete ℕ_discrete s m)
unfolding Table.delete
delete-IsBelow n s [] h = tt
delete-IsBelow n s ((r, k) ∷ m) (lt, h) = elim (ℕ_discrete r s) [
  | yes p ↦ rw (if_pos _ p) (delete-IsBelow n s m h)
  | no p ↦ rw (if_neg _ p) (lt, delete-IsBelow n s m h)
]
