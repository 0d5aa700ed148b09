-- ===== src/GeeRpc/XClient/Broadcasts.antt =====
-- What Broadcast of gee-rpc/day7-registry/xclient/xclient.go returns, from the order in which its
-- calls end.
use days_golang_master.Base.{
  ◌≡◌, refl, Text, Option, none, some, List, [], ◌∷◌, Bool, true, false, not, map, inl, inr, ap,
  ◌∙◌, arith, Option-cases, Bool-cases,
}
use days_golang_master.GeeRpc.Discovery.{get_all}
use days_golang_master.GeeRpc.XClient.{
  XClient, Ended, replied, failed, no_server, Gathered, gather, gather_all, broadcast,
}

abbrev pub first_error : List Ended → Option Ended
first_error [] = none
first_error (replied r ∷ es) = first_error es
first_error (failed e ∷ es) = some (failed e)
first_error (no_server ∷ es) = some no_server

abbrev pub first_reply : List Ended → Option Text
first_reply [] = none
first_reply (replied r ∷ es) = some r
first_reply (failed e ∷ es) = first_reply es
first_reply (no_server ∷ es) = first_reply es

-- What the shared variables become, from those at the start.
abbrev kept_error : Option Ended → List Ended → Option Ended
kept_error (some e) es = some e
kept_error none es = first_error es

gather-error : (e : Ended) (g : Gathered) → (gather e g).error ≡ kept_error g.error (e ∷ [])
unfolding gather
gather-error (replied r) g = elim (Bool-cases g.reply_done) [
  | inl k ↦ elim (Option-cases g.error) [ inl o ↦ ground arith | inr (x, o) ↦ ground arith ]
  | inr k ↦ elim (Option-cases g.error) [ inl o ↦ ground arith | inr (x, o) ↦ ground arith ]
]
gather-error (failed n) g = elim (Option-cases g.error) [
  | inl o ↦ ground arith
  | inr (x, o) ↦ ground arith
]
gather-error no_server g = elim (Option-cases g.error) [
  | inl o ↦ ground arith
  | inr (x, o) ↦ ground arith
]

kept_error-cons :
    (o : Option Ended) (e : Ended) (es : List Ended)
    → kept_error (kept_error o (e ∷ [])) es ≡ kept_error o (e ∷ es)
kept_error-cons (some x) e es = refl
kept_error-cons none (replied r) es = refl
kept_error-cons none (failed n) es = refl
kept_error-cons none no_server es = refl

gather_all-error :
    (es : List Ended) (g : Gathered) → (gather_all es g).error ≡ kept_error g.error es
unfolding gather_all
gather_all-error [] g = elim (Option-cases g.error) [
  | inl o ↦ ground arith
  | inr (x, o) ↦ ground arith
]
gather_all-error (e ∷ es) g =
    gather_all-error es (gather e g)
    ∙ (ap (λ o. kept_error o es) (gather-error e g) ∙ kept_error-cons g.error e es)

gather_done : (e : Ended) (g : Gathered) → g.reply_done ≡ true → (gather e g).reply ≡ g.reply
unfolding gather
gather_done (replied r) g k = ground arith
gather_done (failed n) g k = elim (Option-cases g.error) [
  | inl o ↦ ground arith
  | inr (x, o) ↦ ground arith
]
gather_done no_server g k = elim (Option-cases g.error) [
  | inl o ↦ ground arith
  | inr (x, o) ↦ ground arith
]

gather_still : (e : Ended) (g : Gathered) → g.reply_done ≡ true → (gather e g).reply_done ≡ true
unfolding gather
gather_still (replied r) g k = ground arith
gather_still (failed n) g k = elim (Option-cases g.error) [
  | inl o ↦ ground arith
  | inr (x, o) ↦ ground arith
]
gather_still no_server g k = elim (Option-cases g.error) [
  | inl o ↦ ground arith
  | inr (x, o) ↦ ground arith
]

gather_all_done :
    (es : List Ended) (g : Gathered) → g.reply_done ≡ true → (gather_all es g).reply ≡ g.reply
unfolding gather_all
gather_all_done [] g k = refl
gather_all_done (e ∷ es) g k =
    gather_all_done es (gather e g) (gather_still e g k) ∙ gather_done e g k

-- While a reply is wanted, an error leaves the reply as it is.
gather_failed :
    (e : Ended) (g : Gathered)
    → ((r : Text) → e ≡ replied r → ⊥)
    → ((gather e g).reply ≡ g.reply) × ((gather e g).reply_done ≡ g.reply_done)
unfolding gather
gather_failed (replied r) g n = absurd (n r refl)
gather_failed (failed x) g n = elim (Option-cases g.error) [
  | inl o ↦ (ground arith, ground arith)
  | inr (y, o) ↦ (ground arith, ground arith)
]
gather_failed no_server g n = elim (Option-cases g.error) [
  | inl o ↦ (ground arith, ground arith)
  | inr (y, o) ↦ (ground arith, ground arith)
]

gather_first :
    (r : Text) (g : Gathered)
    → g.reply_done ≡ false
    → ((gather (replied r) g).reply ≡ some r) × ((gather (replied r) g).reply_done ≡ true)
unfolding gather
gather_first r g k = (ground arith, ground arith)

gather_all-reply :
    (es : List Ended) (g : Gathered)
    → g.reply_done ≡ false
    → g.reply ≡ none
    → (gather_all es g).reply ≡ first_reply es
unfolding gather_all
gather_all-reply [] g k z = z
gather_all-reply (replied r ∷ es) g k z =
    let (w, d) = gather_first r g k in gather_all_done es (gather (replied r) g) d ∙ w
gather_all-reply (failed x ∷ es) g k z =
    let (same, wanted) = gather_failed (failed x) g (λ r h. cc) in
    gather_all-reply es (gather (failed x) g) (wanted ∙ k) (same ∙ z)
gather_all-reply (no_server ∷ es) g k z =
    let (same, wanted) = gather_failed no_server g (λ r h. cc) in
    gather_all-reply es (gather no_server g) (wanted ∙ k) (same ∙ z)

-- In whatever order its calls end: Broadcast returns the error of the first call that fails, and none
-- if none fails; and if a reply is wanted, the reply of the first call that succeeds.
pub broadcast_lem :
    (run : Text → Ended) (order : List Ended → List Ended) (wants_reply : Bool) (xc : XClient)
    → let ended = order (map run xc.d.servers) in
      let result = broadcast run order wants_reply xc in
      (result.error ≡ first_error ended)
      × (wants_reply ≡ true → result.reply ≡ first_reply ended)
      × (wants_reply ≡ false → result.reply ≡ none)
unfolding broadcast get_all
broadcast_lem run order wants_reply xc = (
  gather_all-error _ _,
  (λ w. gather_all-reply _ _ (ap not w) refl),
  λ w. gather_all_done _ _ (ap not w),
)
