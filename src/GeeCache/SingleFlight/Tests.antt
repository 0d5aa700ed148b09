-- ===== src/GeeCache/SingleFlight/Tests.antt =====
-- Goroutines on one key, and inputs for the theorems.
use days_golang_master.Base.{ℕ, ◌≡◌, refl, Text, codes, text_discrete, some, ℕ_discrete, Has}
use days_golang_master.Base.Table
use days_golang_master.GeeCache.SingleFlight.{
  Group, start, move, Steps, here, then, enters, joins, leads, fn_returns, wakes, running, waiting,
  returned, crashed,
}
use days_golang_master.GeeCache.SingleFlight.Flights.{steps-share}
use days_golang_master.GeeCache.SingleFlight.Panics.{panics-block}

abbrev key : Text
key = codes "Tom"

-- Goroutine 0 executes the function.
abbrev leading : (g : Group ℕ) × Steps start g
unfolding Table.get ℕ_discrete text_discrete
leading = (_, then (then here (enters 0 key refl)) (leads 0 key refl refl))

-- Goroutine 1 joins it; the result is 630.
abbrev shared : (g : Group ℕ) × Steps start g
unfolding Table.get Table.put ℕ_discrete text_discrete
shared = (
  _,
  then
      (then (then (then leading.1 (enters 1 key refl)) (joins 1 key 0 refl refl))
        (fn_returns 0 key 0 630 refl))
      (wakes 1 key 0 630 refl refl),
)

shares : shared.0.place 1 ≡ returned key 630
unfolding Table.get Table.put ℕ_discrete text_discrete
shares = refl

steps-share_example :
    ((t u : ℕ) (k : Text) (c d : ℕ)
      → shared.0.place t ≡ running k c
      → shared.0.place u ≡ running k d
      → t ≡ u)
    × ((t : ℕ) (k : Text) (r : ℕ) → shared.0.place t ≡ returned k r → Has (k, r) shared.0.executed)
steps-share_example = steps-share shared.0 shared.1

panics-block_example :
    (Table.get text_discrete key (record leading.0 { place = move 0 crashed leading.0 }).m ≡ some 0)
    × ((u : ℕ)
        → (record leading.0 { place = move 0 crashed leading.0 }).place u ≡ waiting key 0
        → (k : Group ℕ) → Steps (record leading.0 { place = move 0 crashed leading.0 }) k
        → k.place u ≡ waiting key 0)
unfolding ℕ_discrete leading
panics-block_example =
    panics-block leading.0 0 key 0 leading.1 refl
      (record leading.0 { place = move 0 crashed leading.0 }) here
