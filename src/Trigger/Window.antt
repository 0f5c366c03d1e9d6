-- ===== src/Trigger/Window.antt =====
-- For how many matches a trigger fires (trigger.go, findMatchingTriggers).
use goto.Prelude.{
  ℕ, zero, suc, ◌+◌, ◌≡◌, refl, arith, Bool, true, ◌&&◌, ◌||◌, none, some, List, [], ◌∷◌,
  if◌then◌else◌, leb, nat_beq, ℤ, pos, int_eq, ◌+ℤ◌, Text, text_eq, to_lower, ◌∙◌,
}
use goto.Prelude.Dict.{Dict, get, values}
use goto.Params.Mux.{Request}
use goto.Trigger.{TriggerTarget, Trigger}
use goto.Trigger.Matching.{matches_uris, Found, has_http_target, find_matching_triggers}
use goto.Trigger.Conditions.{is_triggered}
use goto.Trigger.Named.{IsNamed}
use goto.Trigger.Firing.{find_matching_triggers_lem}
use goto.Trigger.Reachable.{found-IsNamed}

module _ (header_get : Text → Text) (r : Request) (status : ℤ) where
  -- The triggers after so many responses with that status to such requests.
  unfoldable pub respond : ℕ → Trigger → Trigger
  respond zero t = t
  respond (suc k) t =
      respond k (record t { targets = (find_matching_triggers header_get r status t).targets })

  -- A target, its matches apart.
  abbrev matched_times : ℕ → TriggerTarget → TriggerTarget
  matched_times n x = record x { match_count = pos n }

  matches_uris-counted :
      (x : TriggerTarget) (n : ℤ) (res : List (Text → Bool))
      → matches_uris header_get (to_lower r.request_uri) status (record x { match_count = n }) res
        ≡ matches_uris header_get (to_lower r.request_uri) status x res
  unfolding matches_uris
  matches_uris-counted x n [] = refl
  matches_uris-counted x n (re ∷ res) = ground (arith, matches_uris-counted x n res)

  module _ (t : Trigger) (n : Text) (x : TriggerTarget) (a b : ℕ) where
    abbrev pub at_count : ℕ → TriggerTarget
    at_count c = record x { match_count = pos c }

    -- The target under the name is enabled and triggered, for the matches from a to b, or all from a on.
    abbrev pub IsWindowed : Type 0
    IsWindowed =
        (x.enabled ≡ true)
        × (has_http_target x ≡ true)
        × (x.start_from ≡ pos a)
        × (x.stop_at ≡ pos b)
        × (is_triggered header_get (to_lower r.request_uri) status t n x ≡ true)

    abbrev pub in_window : ℕ → Bool
    in_window c = leb a c && (nat_beq b 0 || leb c b)

    abbrev Counts : ℕ → Dict Text TriggerTarget → Type 0
    Counts c targets = IsNamed targets × (get n targets ≡ some (at_count c))

    still_triggered :
        (c : ℕ) (targets : Dict Text TriggerTarget)
        → IsWindowed
        → is_triggered header_get
            (to_lower r.request_uri)
            status
            (record t { targets = targets })
            n
            (at_count c)
          ≡ true
    still_triggered c targets w =
        ground (arith, w, matches_uris-counted x (pos c) (values x.trigger_uri_regexps))

    abbrev again : Dict Text TriggerTarget → Found
    again targets = find_matching_triggers header_get r status (record t { targets = targets })

    match_counted :
        (c : ℕ) (targets : Dict Text TriggerTarget)
        → IsWindowed
        → Counts c targets
        → Counts (suc c) (again targets).targets
          × (get n (again targets).http_targets
              ≡ (if in_window (suc c) then some (at_count (suc c)) else none))
    unfolding ◌+ℤ◌
    match_counted c targets w (named, e) =
        let (ft, fh, fp) =
          find_matching_triggers_lem header_get r status (record t { targets = targets }) n named in
        let still = still_triggered c targets w in
        (
          (
            found-IsNamed header_get r status (record t { targets = targets }) named,
            ground (arith, ft, still, e),
          ),
          ground (arith, fh, still, e, w),
        )

    matches_counted :
        (k c : ℕ) (targets : Dict Text TriggerTarget)
        → IsWindowed
        → Counts c targets
        → get n
            (find_matching_triggers header_get r status
              (respond k (record t { targets = targets }))).http_targets
          ≡ (if in_window (suc (k + c)) then some (at_count (suc (k + c))) else none)
    unfolding respond
    matches_counted zero c targets w s = (match_counted c targets w s).1 ∙ ground arith
    matches_counted (suc k) c targets w s =
        matches_counted k (suc c) (again targets).targets w (match_counted c targets w s).0
        ∙ ground arith

    -- If every target is under its own name and no other: of a target that is triggered, enabled and has an
    -- HTTP target, with no match counted, and of equal responses, the one that k others came before is sent
    -- to the target exactly if it is, counted from 1, in the target's window; it is then sent with that count.
    pub fires_in_window :
        (k : ℕ)
        → IsNamed t.targets
        → get n t.targets ≡ some (at_count 0)
        → IsWindowed
        → get n (find_matching_triggers header_get r status (respond k t)).http_targets
          ≡ (if in_window (suc k) then some (at_count (suc k)) else none)
    fires_in_window k named e w = matches_counted k 0 t.targets w (named, e) ∙ ground arith
