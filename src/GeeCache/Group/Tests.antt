-- ===== src/GeeCache/Group/Tests.antt =====
-- The group of scores of gee-cache/day7-proto-buf/main.go on a key that its memory lacks, and the
-- input for the theorem.
use days_golang_master.Base.{
  ◌≡◌, refl, Text, codes, subst, ◌<◌, ◌^◌, ℕ_discrete, text_discrete, none, some, done, arith, ite,
  false, panic,
}
use days_golang_master.GeeCache.Lru.{new}
use days_golang_master.GeeCache.Lru.Valid.{new-IsValid}
use days_golang_master.GeeCache.Lru.Elements.{total, touch, entries, without}
use days_golang_master.GeeCache.Group.{Got, got, failed, Group, len, lru_of, new_group, get_view}
use days_golang_master.GeeCache.Group.Transparent.{IsGood, HasRoom, Kept, get_view-transparent}

abbrev db : Text → Got
db key = ite (text_discrete key (codes "Tom")) (got (codes "630")) (failed 0)

abbrev scores : Group
scores = record {
  name = codes "scores";
  getter = db;
  main_cache = record { lru = none; cache_bytes = 2048 };
  peers = none;
}

makes_scores : new_group (codes "scores") 2048 (some db) ≡ done scores
unfolding new_group
makes_scores = refl

needs_getter : new_group (codes "scores") 2048 none ≡ panic
unfolding new_group
needs_getter = refl

new_IsGood : IsGood db (lru_of scores.main_cache)
unfolding new
new_IsGood = record { valid = new-IsValid len 2048 false; faithful = tt; limit = omega arith }

got-injective : {v w : Text} → got v ≡ got w → v ≡ w
got-injective e = cc

room : HasRoom (codes "Tom") scores
unfolding text_discrete ℕ_discrete new len without
room v e =
    subst (λ w. total len (touch (codes "Tom") w (entries (lru_of scores.main_cache).ll)) < 2 ^ 63)
      (got-injective e) (omega arith)

get_view-transparent_example :
    (g : Group) × (get_view (codes "Tom") scores ≡ done (g, db (codes "Tom"))) × Kept scores g
get_view-transparent_example =
    get_view-transparent (codes "Tom") scores (λ e. cc) new_IsGood tt room
