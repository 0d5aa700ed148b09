-- ===== src/GeeCache/SingleFlight/Flights.antt =====
-- What the callers of gee-cache/day7-proto-buf/geecache/singleflight can rely on.
use days_golang_master.Base.{ℕ, ◌≡◌, sym, ap, ◌∙◌, inl, Text, Has, eq_of_some}
use days_golang_master.GeeCache.SingleFlight.{running, returned, Group, start, Steps}
use days_golang_master.GeeCache.SingleFlight.Keeping.{reached-Inv}

module _ {R : Type 0} where
  -- In every state that goroutines calling Do can reach: two of them that execute the function for
  -- one key are the same goroutine, and a result that Do returned for a key, to the one that executed
  -- the function or to one that waited, was returned by an execution for that key.
  pub steps-share :
      (g : Group R)
      → Steps start g
      → ((t u : ℕ) (key : Text) (c d : ℕ)
          → g.place t ≡ running key c
          → g.place u ≡ running key d
          → t ≡ u)
        × ((t : ℕ) (key : Text) (r : R) → g.place t ≡ returned key r → Has (key, r) g.executed)
  steps-share g s =
      let inv = reached-Inv s in
      (
        (λ t u key c d h h'. inv.sole t u key key c (inl h) (
            inl (
              h'
              ∙ ap (running key)
                  (eq_of_some (sym (inv.owned u key d (inl h')) ∙ inv.owned t key c (inl h)))))),
        λ t key r h. (inv.told t).0 key r h,
      )
