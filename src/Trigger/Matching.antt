-- ===== src/Trigger/Matching.antt =====
-- Which triggers a response fires (trigger.go, findMatchingTriggers; httpHeadersUtil.go; httpChecks.go).
-- http.Header.Get is an argument. An iteration of the loops over the maps is one step.
use goto.Prelude.{
  Bool, true, false, ◌&&◌, ◌||◌, Option, none, some, List, [], ◌∷◌, if◌then◌else◌, ℤ, pos, leb_ℤ,
  ◌+ℤ◌, int_eq, Text, text_eq, ◌==◌, to_lower, equal_fold,
}
use goto.Prelude.Dict.{Dict, get, put, values}
use goto.Params.Mux.{Request}
use goto.Trigger.{TriggerTarget, Trigger, or_nothing}

-- MatchAllHeaders
unfoldable pub match_all_headers : (Text → Text) → Dict Text Text → Bool
match_all_headers header_get [] = false
match_all_headers header_get ((eh, ehv) ∷ expected) =
    let rest = match_all_headers header_get expected in
    let hv = header_get eh in
    if eh == [] || hv == [] then rest else if ehv == [] || equal_fold ehv hv then true else rest

unfoldable pub first_value {ℓ} : {A : Type ℓ} → Text → Dict Text A → Option A
first_value hv [] = none
first_value hv ((ehv, value) ∷ m) =
    if ehv == [] || equal_fold ehv hv then some value else first_value hv m

abbrev pub or_else {ℓ} : {A : Type ℓ} → Option A → Option A → Option A
or_else none o = o
or_else (some a) o = some a

-- GetIfAnyHeaderMatched
unfoldable pub get_if_any_header_matched {ℓ} :
    {A : Type ℓ} → (Text → Text) → Dict Text (Dict Text A) → Option A
get_if_any_header_matched header_get [] = none
get_if_any_header_matched header_get ((eh, values) ∷ expected) =
    let rest = get_if_any_header_matched header_get expected in
    let hv = header_get eh in
    if eh == [] || hv == [] then rest else or_else (first_value hv values) rest

-- IsInIntArray
unfoldable pub is_in_int_array : ℤ → List ℤ → Bool
is_in_int_array value [] = false
is_in_int_array value (v ∷ vs) = v == value || is_in_int_array value vs

abbrev pub is_empty {ℓ} : {A : Type ℓ} → List A → Bool
is_empty [] = true
is_empty (x ∷ xs) = false

abbrev pub put_if :
    (TriggerTarget → Bool)
    → Text
    → Option TriggerTarget
    → Dict Text TriggerTarget
    → Dict Text TriggerTarget
put_if p name none m = m
put_if p name (some tt) m = if p tt then put name tt m else m

-- The names of a list whose targets pass a test are put under those that match.
unfoldable pub collect :
    (TriggerTarget → Bool)
    → Dict Text TriggerTarget
    → List Text
    → Dict Text TriggerTarget
    → Dict Text TriggerTarget
collect p targets [] m = m
collect p targets (name ∷ names) m = collect p targets names (put_if p name (get name targets) m)

module _ (header_get : Text → Text) (uri : Text) (status : ℤ) where
  abbrev pub matches_headers : TriggerTarget → Bool
  matches_headers tt =
      is_empty tt.trigger_headers || match_all_headers header_get tt.trigger_headers

  abbrev pub matches_statuses : TriggerTarget → Bool
  matches_statuses tt = is_empty tt.trigger_statuses || is_in_int_array status tt.trigger_statuses

  -- The loop over a target's patterns, up to one that matches.
  unfoldable pub matches_uris : TriggerTarget → List (Text → Bool) → Bool
  matches_uris tt [] = false
  matches_uris tt (re ∷ res) =
      (re uri && matches_statuses tt && matches_headers tt) || matches_uris tt res

  abbrev pub by_uri : TriggerTarget → Bool
  by_uri tt = matches_uris tt (values tt.trigger_uri_regexps)

  unfoldable pub collect_uris :
      Dict Text TriggerTarget → List (List Text) → Dict Text TriggerTarget → Dict Text TriggerTarget
  collect_uris targets [] m = m
  collect_uris targets (names ∷ lists) m =
      collect_uris targets lists (collect by_uri targets names m)

  unfoldable pub collect_missing :
      Dict Text TriggerTarget → List Text → Dict Text TriggerTarget → Dict Text TriggerTarget
  collect_missing targets [] m = m
  collect_missing targets (name ∷ names) m = elim (get name m) [
    | none ↦ collect_missing targets names (put_if matches_headers name (get name targets) m)
    | some tt ↦ collect_missing targets names m
  ]

  unfoldable pub matching : Trigger → Dict Text TriggerTarget
  matching t =
      let by_uris = collect_uris t.targets (values t.targets_by_uris) [] in
      let by_status =
        collect_missing t.targets (or_nothing (get status t.targets_by_status)) by_uris in
      collect (λ tt. true) t.targets
        (or_nothing (get_if_any_header_matched header_get t.targets_by_headers)) by_status

-- The targets, those of them to send to, and those whose pipes to call.
pub record Found : Type 0 where
  pub targets : Dict Text TriggerTarget
  pub http_targets : Dict Text TriggerTarget
  pub pipe_sources : Dict Text TriggerTarget

abbrev pub counted : TriggerTarget → TriggerTarget
counted tt = record tt { match_count = tt.match_count +ℤ pos 1 }

-- Whether the target, with the match counted, is enabled and in its window.
abbrev pub fires : TriggerTarget → Bool
fires tt =
    tt.enabled
    && leb_ℤ tt.start_from tt.match_count
    && (tt.stop_at == pos 0 || leb_ℤ tt.match_count tt.stop_at)

abbrev pub has_http_target : TriggerTarget → Bool
has_http_target tt = elim tt.http_target [ none ↦ false | some target ↦ true ]

-- A match is written through the pointer that the target's entry in the map is.
unfoldable pub count_match : Text → TriggerTarget → Found → Found
count_match name tt f = record {
  targets = put name tt f.targets;
  http_targets =
      if fires tt && has_http_target tt then put tt.name tt f.http_targets else f.http_targets;
  pipe_sources = if fires tt && tt.pipe then put tt.name tt f.pipe_sources else f.pipe_sources;
}

unfoldable pub count_matches : Dict Text TriggerTarget → Found → Found
count_matches [] f = f
count_matches ((name, tt) ∷ m) f = count_matches m (count_match name (counted tt) f)

unfoldable pub find_matching_triggers : (Text → Text) → Request → ℤ → Trigger → Found
find_matching_triggers header_get r status t =
    count_matches (matching header_get (to_lower r.request_uri) status t)
      record { targets = t.targets; http_targets = []; pipe_sources = [] }
