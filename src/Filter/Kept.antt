-- ===== src/Filter/Kept.antt =====
-- The entries that a filter has after any calls of its handlers (filter.go).
pub mod Uris
pub mod UriHit
pub mod Headers
pub mod HeaderHit
use goto.Prelude.{◌≡◌, arith, false, List, Bool-cases, inl, inr}
use goto.Filter.{RegexpLib, RequestFilter}
use goto.Filter.History.{Call, run}
use goto.Filter.Lockout.{run-SameFlags}

module _ (re : RegexpLib) where
  -- A lock that is free after a call was free before it.
  pub was_free :
      (rf : RequestFilter re) (cs : List (Call re))
      → (run re rf cs).locked ≡ false
      → rf.locked ≡ false
  was_free rf cs free = elim (Bool-cases rf.locked) [
    | inl l ↦ ground (arith, run-SameFlags re rf cs l)
    | inr l ↦ l
  ]
