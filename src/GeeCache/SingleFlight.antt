-- ===== src/GeeCache/SingleFlight.antt =====
-- gee-cache/day7-proto-buf/geecache/singleflight/singleflight.go: concurrent calls of Do with one key
-- share one execution of their function.
--
-- A goroutine is a number. The steps are the parts of Do between which others may run: the part under
-- the lock that joins a call or starts one, the end of fn with wg.Done, the part under the lock that
-- deletes the key, and the return of a waiter after wg.Wait. A result is the pair of fn, of a type
-- `R`. A panic of fn leaves Do at once.
pub mod Invariant
pub mod Keeping
pub mod Flights
pub mod Panics
mod Tests
use days_golang_master.Base.{
  ℕ, suc, ◌≡◌, Text, text_discrete, Option, none, some, List, [], ◌∷◌, ite, ℕ_discrete,
}
use days_golang_master.Base.Table
use days_golang_master.Base.Table.{Table}

-- Where a goroutine is in Do: `calling` before the lock, and at its end with what it returned.
pub data Place (R : Type 0) : Type 0 where
  outside crashed : Place R
  calling : Text → Place R
  waiting running : Text → ℕ → Place R
  deleting : Text → ℕ → R → Place R
  returned : Text → R → Place R

pub record Group (R : Type 0) : Type 0 where
  pub place : ℕ → Place R
  -- g.m, from a key to a call
  pub m : Table Text ℕ
  -- the calls whose wg is done, with their val and err
  pub results : Table ℕ R
  -- the next call
  pub fresh : ℕ
  -- the calls that were started, with their keys, and the executions that returned
  pub started : List (ℕ × Text)
  pub executed : List (Text × R)

abbrev pub start : {R : Type 0} → Group R
start = record {
  place = λ _. outside;
  m = [];
  results = [];
  fresh = 0;
  started = [];
  executed = [];
}

abbrev pub move : {R : Type 0} → ℕ → Place R → Group R → ℕ → Place R
move t p g u = ite (ℕ_discrete t u) p (g.place u)

pub data Step {R : Type 0} (g : Group R) : Group R → Type 0 where
  enters :
      (t : ℕ) (key : Text)
      → g.place t ≡ outside
      → Step g (record g { place = move t (calling key) g })
  joins :
      (t : ℕ) (key : Text) (c : ℕ)
      → g.place t ≡ calling key
      → Table.get text_discrete key g.m ≡ some c
      → Step g (record g { place = move t (waiting key c) g })
  leads :
      (t : ℕ) (key : Text)
      → g.place t ≡ calling key
      → Table.get text_discrete key g.m ≡ none
      → Step g (record g {
        place = move t (running key g.fresh) g;
        m = Table.put text_discrete key g.fresh g.m;
        fresh = suc g.fresh;
        started = (g.fresh, key) ∷ g.started;
      })
  fn_returns :
      (t : ℕ) (key : Text) (c : ℕ) (r : R)
      → g.place t ≡ running key c
      → Step g (record g {
        place = move t (deleting key c r) g;
        results = Table.put ℕ_discrete c r g.results;
        executed = (key, r) ∷ g.executed;
      })
  fn_panics :
      (t : ℕ) (key : Text) (c : ℕ)
      → g.place t ≡ running key c
      → Step g (record g { place = move t crashed g })
  deletes :
      (t : ℕ) (key : Text) (c : ℕ) (r : R)
      → g.place t ≡ deleting key c r
      → Step g
          (record g { place = move t (returned key r) g; m = Table.delete text_discrete key g.m })
  wakes :
      (t : ℕ) (key : Text) (c : ℕ) (r : R)
      → g.place t ≡ waiting key c
      → Table.get ℕ_discrete c g.results ≡ some r
      → Step g (record g { place = move t (returned key r) g })

pub data Steps {R : Type 0} (g : Group R) : Group R → Type 0 where
  here : Steps g g
  then : {h k : Group R} → Steps g h → Step h k → Steps g k
