-- ===== src/GeeRpc/Client/Pending.antt =====
-- The account of the calls of gee-rpc/day7-registry/client.go, and the operations that keep it.
use days_golang_master.Base.{
  ℕ, suc, ◌+◌, ◌^◌, ◌≤◌, ◌<◌, ◌≡◌, ◌≢◌, refl, sym, ap, ◌∙◌, subst, ◌⊎◌, inl, inr, Text, Option,
  none, some, List, ◌∷◌, arith, length, true, false, ℕ_discrete, add64, Option-cases, Bool-cases,
}
use days_golang_master.Base.Table
use days_golang_master.Base.Table.{Table}
use days_golang_master.GeeRpc.Client.{
  Client, stopped, register_call, remove_call, finish, terminate_calls, begin_send, end_send,
  read_body, receive, give_up, Outcome, shut_down,
}
use days_golang_master.GeeRpc.Client.Count.{
  count, count_pending, count_finished, count_found, count-put, count-delete, count_terminated,
  IsBelow, get-IsBelow, put-IsBelow, delete-IsBelow,
}

-- Until the client is shut down each issued call is pending, finished or dropped, as often as it was
-- issued; from then on none is finished more often, and each is finished or dropped.
abbrev pub Accounts : List ℕ → Client → Type 0
Accounts calls c =
    ((c.shutdown ≡ false)
      × ((i : ℕ)
          → count_pending i c.pending + (count_finished i c.finished + count i c.dropped)
            ≡ count i calls))
    ⊎ ((c.shutdown ≡ true)
        × (c.receiver ≡ stopped)
        × (c.sending ≡ none)
        × ((i : ℕ)
            → (count_finished i c.finished ≤ count i calls)
              × (count i calls ≤ count_finished i c.finished + count i c.dropped)))

-- Numbers are not used again.
abbrev pub IsNumbered : List ℕ → Client → Type 0
IsNumbered calls c =
    Table.IsUnique ℕ_discrete c.pending × IsBelow c.seq c.pending × (c.seq ≤ suc (length calls))

abbrev pub IsValid : List ℕ → Client → Type 0
IsValid calls c = IsNumbered calls c × Accounts calls c

-- An operation that removes the call with a number, and finishes or drops it.
abbrev pub Removes : ℕ → Client → Client → Type 0
Removes s c d =
    (d.pending ≡ Table.delete ℕ_discrete s c.pending)
    × (d.seq ≡ c.seq)
    × (d.shutdown ≡ c.shutdown)
    × ((i : ℕ)
        → count_finished i d.finished + count i d.dropped
          ≡ count_found i (Table.get ℕ_discrete s c.pending)
            + (count_finished i c.finished + count i c.dropped))

pub receive-Removes :
    (s : ℕ) (err body : Text) (read : Option ℕ) (c : Client)
    → Removes s c (receive s err body read c)
unfolding receive remove_call finish read_body
receive-Removes s err body none c = elim (Option-cases (Table.get ℕ_discrete s c.pending)) [
  | inl e ↦ (ground arith, ground arith, ground arith, λ i. ground arith)
  | inr (j, e) ↦ (ground arith, ground arith, ground arith, λ i. ground arith)
]
receive-Removes s err body (some r) c = elim (Option-cases (Table.get ℕ_discrete s c.pending)) [
  | inl e ↦ (ground arith, ground arith, ground arith, λ i. ground arith)
  | inr (j, e) ↦ (ground arith, ground arith, ground arith, λ i. ground arith)
]

pub end_send-Removes : (s e : ℕ) (c : Client) → Removes s c (end_send s (some e) c)
unfolding end_send remove_call finish
end_send-Removes s r c = elim (Option-cases (Table.get ℕ_discrete s c.pending)) [
  | inl e ↦ (ground arith, ground arith, ground arith, λ i. ground arith)
  | inr (j, e) ↦ (ground arith, ground arith, ground arith, λ i. ground arith)
]

give_up-Removes : (s : ℕ) (c : Client) → Removes s c (give_up s c)
unfolding give_up remove_call
give_up-Removes s c = elim (Option-cases (Table.get ℕ_discrete s c.pending)) [
  | inl e ↦ (ground arith, ground arith, ground arith, λ i. ground arith)
  | inr (j, e) ↦ (ground arith, ground arith, ground arith, λ i. ground arith)
]

-- A removal keeps the numbers, and the balance of a client that is not shut down.
Removes-IsNumbered :
    (calls : List ℕ) (s : ℕ) (c d : Client)
    → Removes s c d
    → IsNumbered calls c
    → IsNumbered calls d
Removes-IsNumbered calls s c d (p, q, sh, bal) (u, b, le) = (
  subst (Table.IsUnique ℕ_discrete) (sym p) (Table.delete-IsUnique ℕ_discrete s c.pending u),
  subst (IsBelow d.seq) (sym p) (
      subst (λ n. IsBelow n (Table.delete ℕ_discrete s c.pending)) (sym q)
        (delete-IsBelow c.seq s c.pending b)),
  omega arith,
)

Removes-Accounts :
    (calls : List ℕ) (s : ℕ) (c d : Client)
    → Removes s c d
    → Table.IsUnique ℕ_discrete c.pending
    → c.shutdown ≡ false
    → Accounts calls c
    → Accounts calls d
Removes-Accounts calls s c d (p, q, sh, bal) u off (inl (f, all)) = inl (
  sh ∙ off,
  λ i.
      ap (λ m. count_pending i m + (count_finished i d.finished + count i d.dropped)) p
      ∙ omega (arith, bal i, all i, count-delete i s c.pending u),
)
Removes-Accounts calls s c d h u off (inr (on, re, se, all)) = cc

-- A running receiver, and a write under way, belong to a client that is not shut down.
pub is_on :
    (calls : List ℕ) (c : Client)
    → Accounts calls c
    → (c.receiver ≢ stopped) ⊎ (c.sending ≢ none)
    → c.shutdown ≡ false
is_on calls c (inl (f, _)) h = f
is_on calls c (inr (_, r, s, _)) (inl n) = absurd (n r)
is_on calls c (inr (_, r, s, _)) (inr n) = absurd (n s)

pub removed-IsValid :
    (calls : List ℕ) (s : ℕ) (c d : Client)
    → Removes s c d
    → c.shutdown ≡ false
    → IsValid calls c
    → IsValid calls d
removed-IsValid calls s c d r off (n, a) =
    (Removes-IsNumbered calls s c d r n, Removes-Accounts calls s c d r n.0 off a)

-- Giving up finishes nothing.
give_up-same :
    (s : ℕ) (c : Client)
    → ((give_up s c).shutdown ≡ c.shutdown)
      × ((give_up s c).receiver ≡ c.receiver)
      × ((give_up s c).sending ≡ c.sending)
      × ((give_up s c).finished ≡ c.finished)
unfolding give_up remove_call
give_up-same s c = elim (Option-cases (Table.get ℕ_discrete s c.pending)) [
  | inl e ↦ (ground arith, ground arith, ground arith, ground arith)
  | inr (j, e) ↦ (ground arith, ground arith, ground arith, ground arith)
]

pub give_up-IsValid :
    (calls : List ℕ) (s : ℕ) (c : Client) → IsValid calls c → IsValid calls (give_up s c)
give_up-IsValid calls s c (n, inl (f, all)) =
    removed-IsValid calls s c (give_up s c) (give_up-Removes s c) f (n, inl (f, all))
give_up-IsValid calls s c (n, inr (on, r, q, all)) = (
  Removes-IsNumbered calls s c (give_up s c) (give_up-Removes s c) n,
  let (sh, re, se, fi) = give_up-same s c in
      let (p, q', sh', bal) = give_up-Removes s c in
      inr (
        sh ∙ on,
        re ∙ r,
        se ∙ q,
        λ i. (
          omega (arith, ap (count_finished i) fi, (all i).0),
          omega (arith, ap (count_finished i) fi, (all i).1, bal i),
        ),
      ),
)

add64_small : (n : ℕ) → suc n < 2 ^ 64 → add64 n 1 ≡ n + 1
unfolding add64
add64_small n h = omega arith

module _ (call : ℕ) (c : Client) where
  begin_send_refused :
      (c.closing ≡ true) ⊎ (c.shutdown ≡ true) → begin_send call c ≡ finish call shut_down c
  unfolding begin_send register_call
  begin_send_refused (inl e) = ground arith
  begin_send_refused (inr e) = elim (Bool-cases c.closing) [
    | inl k ↦ ground arith
    | inr k ↦ ground arith
  ]

  begin_send_registered :
      c.closing ≡ false
      → c.shutdown ≡ false
      → begin_send call c ≡ record c {
        pending = Table.put ℕ_discrete c.seq call c.pending;
        seq = add64 c.seq 1;
        sending = some c.seq;
      }
  unfolding begin_send register_call
  begin_send_registered e k = ground arith

finish-IsValid :
    (calls : List ℕ) (call : ℕ) (o : Outcome) (c : Client)
    → IsValid calls c
    → IsValid (call ∷ calls) (finish call o c)
unfolding finish
finish-IsValid calls call o c ((u, b, le), inl (f, all)) =
    ((u, b, omega arith), inl (f, λ i. omega (arith, all i)))
finish-IsValid calls call o c ((u, b, le), inr (on, re, se, all)) = (
  (u, b, omega arith),
  inr (on, re, se, λ i. (omega (arith, (all i).0), omega (arith, (all i).1))),
)

pub begin_send-IsValid :
    (calls : List ℕ) (call : ℕ) (c : Client)
    → suc (suc (length calls)) < 2 ^ 64
    → IsValid calls c
    → IsValid (call ∷ calls) (begin_send call c)
begin_send-IsValid calls call c small (n, inr a) =
    rw (begin_send_refused call c (inr a.0)) (finish-IsValid calls call shut_down c (n, inr a))
begin_send-IsValid calls call c small ((u, b, le), inl (f, all)) = elim (Bool-cases c.closing) [
  | inl k ↦
      rw (begin_send_refused call c (inl k))
        (finish-IsValid calls call shut_down c ((u, b, le), inl (f, all)))
  | inr k ↦ rw (begin_send_registered call c k f) (
      rw (add64_small c.seq (omega arith)) (
        (
          Table.put-IsUnique ℕ_discrete c.seq call c.pending u,
          put-IsBelow c.seq call c.pending b,
          omega arith,
        ),
        inl (
          f,
          λ i.
              omega
                (arith, all i, count-put i c.seq call c.pending (get-IsBelow c.seq c.pending b)),
        ),
      ))
]

pub terminate_calls-IsValid :
    (calls : List ℕ) (e : ℕ) (c : Client)
    → c.sending ≡ none
    → c.shutdown ≡ false
    → IsValid calls c
    → IsValid calls (terminate_calls e c)
unfolding terminate_calls
terminate_calls-IsValid calls e c idle off (n, inl (f, all)) = (
  n,
  inr (
    refl,
    refl,
    idle,
    λ i. (
      omega (arith, all i, count_terminated i e c.pending c.finished),
      omega (arith, all i, count_terminated i e c.pending c.finished),
    ),
  ),
)
terminate_calls-IsValid calls e c idle off (n, inr (on, re, se, all)) = cc
