-- ===== src/Trigger/Invoking.antt =====
-- What the triggers that fire are told, and the counts of it (trigger.go, invokeHTTPTargets,
-- invokePipeSources, invokeTriggers, RunTriggers). The invocation of a target is an argument: the targets'
-- names and statuses of the responses to it. The pipes' callbacks are named by their pipes.
use goto.Prelude.{
  ℕ, ◌+◌, Bool, ◌&&◌, not, Option, none, some, List, [], ◌∷◌, ◌++◌, if◌then◌else◌, ℤ, pos, ◌+ℤ◌,
  int_eq, Text, codes, text_eq, ◌==◌,
}
use goto.Prelude.Dict.{Dict, get, put}
use goto.Params.Mux.{Request, get_string_param, split}
use goto.Params.Port.{port, port_num}
use goto.Trigger.{TriggerTarget, Trigger, or_nothing}
use goto.Trigger.Handlers.{Triggers, port_trigger}
use goto.Trigger.Matching.{find_matching_triggers, has_http_target}

-- A response, of the target of a name, with a status.
abbrev pub Response : Type 0
Response = Text × ℤ

abbrev pub or_zero : Option ℕ → ℕ
or_zero none = 0
or_zero (some n) = n

abbrev pub or_503 : ℤ → ℤ
or_503 status = if status == pos 0 then pos 503 else status

unfoldable pub count_response : Response → Dict Text (Dict ℤ ℕ) → Dict Text (Dict ℤ ℕ)
count_response (name, status) m =
    let counts = or_nothing (get name m) in
    put name (put (or_503 status) (or_zero (get (or_503 status) counts) + 1) counts) m

unfoldable pub count_responses : List Response → Dict Text (Dict ℤ ℕ) → Dict Text (Dict ℤ ℕ)
count_responses [] m = m
count_responses (x ∷ xs) m = count_responses xs (count_response x m)

-- TriggerCount++ through the pointer that the target of a name is.
abbrev pub count_trigger :
    Option TriggerTarget → Text → Dict Text TriggerTarget → Dict Text TriggerTarget
count_trigger none name m = m
count_trigger (some tt) name m =
    put name (record tt { trigger_count = tt.trigger_count +ℤ pos 1 }) m

unfoldable pub count_triggers :
    Dict Text TriggerTarget → Dict Text TriggerTarget → Dict Text TriggerTarget
count_triggers [] m = m
count_triggers ((name, tt) ∷ invoked) m = count_triggers invoked (count_trigger (get name m) name m)

unfoldable pub responses_of :
    (TriggerTarget → List Response) → Dict Text TriggerTarget → List Response
responses_of invoke [] = []
responses_of invoke ((name, tt) ∷ targets) = invoke tt ++ responses_of invoke targets

-- The results are counted after all the targets are invoked.
unfoldable pub invoke_http_targets :
    (TriggerTarget → List Response) → Dict Text TriggerTarget → Trigger → Trigger × List Response
invoke_http_targets invoke targets t =
    let responses = responses_of invoke targets in
    (
      record t {
        targets = count_triggers targets t.targets;
        trigger_results = count_responses responses t.trigger_results;
      },
      responses,
    )

-- A call of a pipe's callback: the target, the pipe, the port and the status.
pub record PipeCall : Type 0 where
  pub target : Text
  pub source : Text
  pub at_port : ℤ
  pub status : ℤ

unfoldable pub pipe_calls : Text → List Text → ℤ → ℤ → List PipeCall
pipe_calls name [] p status = []
pipe_calls name (source ∷ sources) p status =
    record { target = name; source = source; at_port = p; status = status }
    ∷ pipe_calls name sources p status

unfoldable pub all_pipe_calls : Dict Text TriggerTarget → ℤ → ℤ → List PipeCall
all_pipe_calls [] p status = []
all_pipe_calls ((name, tt) ∷ sources) p status =
    pipe_calls name tt.pipe_callbacks p status ++ all_pipe_calls sources p status

unfoldable pub invoke_pipe_sources :
    Dict Text TriggerTarget → Request → ℤ → Trigger → Trigger × List PipeCall
invoke_pipe_sources sources r status t = (
  record t { targets = count_triggers sources t.targets },
  all_pipe_calls sources (port_num r) status,
)

unfoldable pub named_targets :
    Dict Text TriggerTarget → List Text → Dict Text TriggerTarget → Dict Text TriggerTarget
named_targets targets [] m = m
named_targets targets (name ∷ names) m = elim (get name targets) [
  | none ↦ named_targets targets names m
  | some tt ↦ named_targets targets names (put tt.name tt m)
]

-- getRequestedTriggers
unfoldable pub get_requested_triggers : Request → Trigger → Dict Text TriggerTarget
get_requested_triggers r t =
    let (names, present) = get_string_param r (codes "triggers") in
    if present then named_targets t.targets (split b',' names) [] else t.targets

unfoldable pub select : (TriggerTarget → Bool) → Dict Text TriggerTarget → Dict Text TriggerTarget
select p [] = []
select p ((name, tt) ∷ m) = let rest = select p m in if p tt then (name, tt) ∷ rest else rest

pub data Invoked : Type 0 where
  not_found : Invoked
  invoked : List Response → List PipeCall → Invoked

abbrev pub invoke_found :
    (TriggerTarget → List Response)
    → Dict Text TriggerTarget
    → Request
    → Trigger
    → Trigger × Invoked
invoke_found invoke [] r t = (t, not_found)
invoke_found invoke (entry ∷ targets) r t =
    let (t', responses) = invoke_http_targets invoke (select has_http_target (entry ∷ targets)) t in
    let (t'', calls) =
      invoke_pipe_sources (select (λ tt. tt.pipe) (entry ∷ targets)) r (pos 200) t' in
    (t'', invoked responses calls)

unfoldable pub invoke_triggers :
    (TriggerTarget → List Response) → Request → Trigger → Trigger × Invoked
invoke_triggers invoke r t = invoke_found invoke (get_requested_triggers r t) r t

-- RunTriggers; that a request is one for metrics is an argument. The two goroutines are taken in order.
unfoldable pub run_triggers :
    (TriggerTarget → List Response)
    → (Text → Text)
    → Bool
    → Request
    → ℤ
    → Triggers
    → Triggers × List PipeCall
run_triggers invoke header_get is_metrics r status ts =
    if not r.store.is_admin_request && not is_metrics
    then (let t = port_trigger (port r) ts in
        let found = find_matching_triggers header_get r status t in
        let (t', responses) =
          invoke_http_targets invoke found.http_targets (record t { targets = found.targets }) in
        let (t'', calls) = invoke_pipe_sources found.pipe_sources r status t' in
        (put (port r) t'' ts, calls))
    else (ts, [])
