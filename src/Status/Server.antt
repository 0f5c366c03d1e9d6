-- ===== src/Status/Server.antt =====
-- The handlers and the middleware of forced statuses (status.go). Calls are taken one after the other;
-- delays, log messages, events, metrics and triggers are left out. A panic between Lock and Unlock
-- leaves the port's lock held, so the lock is part of the state.
pub mod Payment
pub mod Counts
use goto.Prelude.{
  ℕ, zero, suc, ◌+◌, Bool, true, false, ◌&&◌, ◌||◌, not, Option, none, some, List, [], ◌∷◌, length,
  if◌then◌else◌, ℤ, pos, negsuc, is_positive, ◌==◌, int_eq, Text, codes, text_eq, contains,
}
use goto.Prelude.Dict.{Dict, get, put}
use goto.Params.Mux.{Request, get_string_param_value, get_status_param}
use goto.Params.Port.{port, port_num}
use goto.Status.Config.{is_empty, random_from}
use goto.Status.Manager
use goto.Status.Manager.{StatusManager, Target, set_status_for, get_status_for}
use goto.Status.FlipFlop.{FlipFlopConfig, Flip, flipflop}

pub record PortStatus : Type 0 where
  pub counts_by_requested_status : Dict ℤ ℕ
  pub counts_by_response_status : Dict ℤ ℕ
  pub flipflop_configs : Dict Text FlipFlopConfig
  pub locked : Bool

abbrev pub new_port_status : PortStatus
new_port_status = record {
  counts_by_requested_status = [];
  counts_by_response_status = [];
  flipflop_configs = [];
  locked = false;
}

-- TheStatusManager and portStatusMap.
pub record Server : Type 0 where
  pub manager : StatusManager
  pub port_statuses : Dict Text PortStatus

abbrev or_new : Option PortStatus → PortStatus
or_new none = new_port_status
or_new (some ps) = ps

unfoldable pub port_status : Text → Server → PortStatus
port_status p s = or_new (get p s.port_statuses)

-- getOrCreatePortStatus, and what is written through the pointer that it returns.
abbrev pub write : Request → PortStatus → Server → Server
write r ps s = record s { port_statuses = put (port r) ps s.port_statuses }

pub data Answer : Type 0 where
  done : Answer
  bad_request : Answer
  panicked : Answer
  blocked : Answer

-- m[k]++
unfoldable pub increment : ℤ → Dict ℤ ℕ → Dict ℤ ℕ
increment k m = put k ((elim (get k m) [ none ↦ 0 | some n ↦ n ]) + 1) m

abbrev pub uri_target : Request → Target
uri_target r = record {
  uri_exact = get_string_param_value r (codes "uri");
  uri_prefix = get_string_param_value r (codes "uriPrefix");
  header = [];
  header_value = [];
  present = true;
}

unfoldable pub set_status : Request → Server → Server × Answer
set_status r s =
    let p = get_status_param r in
    if p.present
    then (
      record s {
        manager = set_status_for (port_num r) (uri_target r) [] p.statuses p.times s.manager;
      },
      done,
    )
    else (s, bad_request)

-- Asking is a call of GetStatusFor, which takes one from the times that are left.
unfoldable pub is_forced_status : Request → ℕ → Server → Server × Bool
is_forced_status r seed s =
    let (m, result) = get_status_for (port_num r) r.request_uri r.headers r.method seed s.manager in
    (record s { manager = m }, is_positive result.0 && is_positive result.1)

pub record Computed : Type 0 where
  pub status : ℤ
  pub remaining : ℤ
  pub overridden : Bool

unfoldable pub compute_response_status : ℤ → Request → ℕ → Server → Server × Computed
compute_response_status original r seed s =
    let (m, result) = get_status_for (port_num r) r.request_uri r.headers r.method seed s.manager in
    (
      record s { manager = m },
      record {
        status = if is_positive result.0 then result.0 else original;
        remaining = result.1;
        overridden = is_positive result.0;
      },
    )

abbrev clear_counts : PortStatus → PortStatus
clear_counts ps = record ps { counts_by_requested_status = []; counts_by_response_status = [] }

abbrev clear_manager : Request → Server → Server
clear_manager r s =
    let uri = get_string_param_value r (codes "uri") in
    record s { manager = Manager.clear (port_num r) uri uri s.manager }

unfoldable pub clear_status : Request → Server → Server × Answer
clear_status r s =
    let ps = port_status (port r) s in
    if ps.locked
    then (write r ps s, blocked)
    else if contains r.request_uri (codes "counts")
    then (write r (clear_counts ps) s, done)
    else (write r (record ps { flipflop_configs = [] }) (clear_manager r s), done)

abbrev pub count_requested : ℤ → PortStatus → PortStatus
count_requested c ps = record ps {
  counts_by_requested_status = increment c ps.counts_by_requested_status;
}

-- The status that a request of /status is answered with, if it is not a flip-flop.
abbrev plain_status : ℕ → List ℤ → ℤ
plain_status seed [] = pos 200
plain_status seed (c ∷ []) = c
plain_status seed (c ∷ d ∷ cs) = random_from seed (c ∷ d ∷ cs)

abbrev after_flip : PortStatus → Option (Dict Text FlipFlopConfig × Flip) → PortStatus × Option ℤ
after_flip ps none = (record ps { locked = true }, none)
after_flip ps (some (configs, f)) =
    (count_requested f.status (record ps { flipflop_configs = configs }), some f.status)

-- What happens to the port's status, and the status asked for; none is a panic.
unfoldable pub requested_status : Request → ℕ → PortStatus → PortStatus × Option ℤ
requested_status r seed ps =
    let p = get_status_param r in
    let restart = contains r.request_uri (codes "flipflop") in
    let times = if is_positive p.times then p.times else pos (length p.statuses) in
    if is_positive p.times || restart
    then after_flip ps (
        flipflop (get_string_param_value r (codes "x-request-id")) p.statuses times restart
          ps.flipflop_configs)
    else let c = plain_status seed p.statuses in (count_requested c ps, some c)

-- The answer to a request of /status: the status that it asks for, and whether it is written.
pub data StatusAnswer : Type 0 where
  answered : ℤ → Bool → StatusAnswer
  panicked : StatusAnswer
  blocked : StatusAnswer

abbrev finish : Request → ℕ → Option ℤ → Server → Server × StatusAnswer
finish r seed none s = (s, StatusAnswer.panicked)
finish r seed (some c) s =
    let (s', forced) = is_forced_status r seed s in (s', answered c (not forced))

unfoldable pub status : Request → ℕ → Server → Server × StatusAnswer
status r seed s =
    let ps = port_status (port r) s in
    let (ps', c) = requested_status r seed ps in
    if ps.locked then (write r ps s, StatusAnswer.blocked) else finish r seed c (write r ps' s)

unfoldable pub increment_status_count : ℤ → Request → Server → Server × Answer
increment_status_count c r s =
    let ps = port_status (port r) s in
    if ps.locked then (write r ps s, Answer.blocked) else (
      write r (record ps { counts_by_response_status = increment c ps.counts_by_response_status })
          s,
      Answer.done,
    )

abbrev pub never_zero : ℤ → ℤ
never_zero c = if c == pos 0 then pos 200 else c

-- The middleware behind the next handler, which left the status `irw`; none where the request has a
-- status of its URI's, or is an administrator's, and where the lock is held for ever.
abbrev reported : Request → Server × Computed → Server × Option ℤ
reported r (s, c) =
    let (s', a) = increment_status_count (never_zero c.status) r s in
    (s', elim a [ blocked ↦ none | _ ↦ some (never_zero c.status) ])

unfoldable pub middleware_func : Request → Bool → ℤ → ℕ → Server → Server × Option ℤ
middleware_func r has_uri_status irw seed s =
    if r.store.is_admin_request || has_uri_status
    then (s, none)
    else reported r (compute_response_status irw r seed s)
