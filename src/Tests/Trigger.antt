-- ===== src/Tests/Trigger.antt =====
-- The triggers at concrete responses.
use goto.Prelude.{
  ◌≡◌, refl, arith, Bool, true, false, Option, some, none, [], ◌∷◌, codes, pos, text_eq, int_eq,
  Text,
}
use goto.Prelude.Dict.{get, delete}
use goto.Params.Mux.{status_request}
use goto.Trigger.{TriggerTarget, TriggerHttpTarget, Trigger, new_trigger}
use goto.Trigger.Deleting.{delete_trigger}
use goto.Trigger.Handlers.{put_trigger}
use goto.Trigger.Matching.{find_matching_triggers, has_http_target}
use goto.Trigger.Removal.{delete_trigger_removes, header_shared_panics}
use goto.Trigger.Firing.{find_matching_triggers_lem, triggered, if_matched, fired, found}
use goto.Trigger.Window.{respond, fires_in_window}

abbrev example_target : TriggerHttpTarget
example_target = record {
  method = codes "GET";
  url = codes "/x";
  headers = [];
  body = [];
  send_id = false;
}

-- A trigger for responses with status 500, from the second to the third.
abbrev example_trigger : TriggerTarget
example_trigger = record {
  name = codes "t";
  http_target = some example_target;
  pipe = false;
  pipe_callbacks = [];
  enabled = true;
  trigger_uris = [];
  trigger_headers = [];
  trigger_statuses = pos 500 ∷ [];
  start_from = pos 2;
  stop_at = pos 3;
  match_count = pos 0;
  trigger_count = pos 0;
  trigger_uri_regexps = [];
}

abbrev triggers : Trigger
triggers = record new_trigger {
  targets = (codes "t", example_trigger) ∷ [];
  targets_by_status = (pos 500, codes "t" ∷ []) ∷ [];
}

abbrev no_headers : Text → Text
no_headers h = []

abbrev no_uris : Text → Option (Text × (Text → Bool))
no_uris uri = none

find_matching_triggers_lem_example :
    (get (codes "t") (found no_headers (status_request "200") (pos 500) triggers).targets
      ≡ if_matched
          (triggered no_headers (status_request "200") (pos 500) triggers (codes "t"))
          (λ x. some x)
          (get (codes "t") triggers.targets))
    × (get (codes "t") (found no_headers (status_request "200") (pos 500) triggers).http_targets
        ≡ if_matched
            (triggered no_headers (status_request "200") (pos 500) triggers (codes "t"))
            (fired has_http_target none)
            none)
    × (get (codes "t") (found no_headers (status_request "200") (pos 500) triggers).pipe_sources
        ≡ if_matched
            (triggered no_headers (status_request "200") (pos 500) triggers (codes "t"))
            (fired (λ x. x.pipe) none)
            none)
unfolding get
find_matching_triggers_lem_example =
    find_matching_triggers_lem no_headers (status_request "200") (pos 500) triggers (codes "t")
      (refl, refl, tt)

fires_in_window_example :
    get
      (codes "t")
      (find_matching_triggers no_headers
        (status_request "200")
        (pos 500)
        (respond no_headers (status_request "200") (pos 500) 1 triggers)).http_targets
    ≡ some (record example_trigger { match_count = pos 2 })
unfolding get text_eq
fires_in_window_example =
    fires_in_window no_headers (status_request "200") (pos 500) triggers (codes "t") example_trigger
      2 3 1 (refl, refl, tt) refl (refl, refl, refl, refl, refl)

delete_trigger_removes_example :
    delete_trigger (codes "t") triggers
    ≡ some (record triggers {
      targets = delete (codes "t") triggers.targets;
      targets_by_uris = [];
      targets_by_headers = [];
      targets_by_status = [];
    })
unfolding text_eq
delete_trigger_removes_example =
    delete_trigger_removes (codes "t") triggers tt (omega arith, tt) refl

abbrev for_header : TriggerTarget
for_header = record example_trigger { trigger_headers = (codes "x", codes "a") ∷ [] }

abbrev other_for_header : TriggerTarget
other_for_header = record for_header { name = codes "u" }

header_shared_panics_example :
    (t : Trigger) × (delete_trigger
        (codes "t")
        (put_trigger no_uris other_for_header (put_trigger no_uris for_header new_trigger))
      ≡ some t)
    × (delete_trigger (codes "u") t ≡ none)
unfolding text_eq
header_shared_panics_example =
    header_shared_panics no_uris for_header other_for_header (codes "x") (codes "a") refl
      (refl, refl) (refl, refl)
