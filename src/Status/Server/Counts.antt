-- ===== src/Status/Server/Counts.antt =====
-- The counts of requested statuses, and the port that a flip-flop locks (status.go, status).
use goto.Prelude.{
  ℕ, ◌+◌, ◌<◌, ◌≡◌, arith, Bool, true, false, none, some, List, ◌∷◌, length, if◌then◌else◌, ℤ, Text,
  codes, contains, text_eq, int_eq, ◌==◌, eq_iff, eq_refl,
}
use goto.Prelude.Dict.{Dict, get, get-put}
use goto.Params.Mux.{Request, get_string_param_value, get_status_param}
use goto.Params.Port.{port}
use goto.Status.FlipFlop.{FlipFlopConfig, flipflop}
use goto.Status.FlipFlop.Cycle.{flip_many_panics}
use goto.Status.Server.{
  Server, PortStatus, port_status, write, increment, requested_status, status, StatusAnswer,
  answered, clear_status, Answer, is_forced_status,
}

pub count : ℤ → Dict ℤ ℕ → ℕ
count k m = elim (get k m) [ none ↦ 0 | some n ↦ n ]

count-increment :
    (c k : ℤ) (m : Dict ℤ ℕ)
    → count k (increment c m) ≡ (if c == k then count k m + 1 else count k m)
unfolding increment count
count-increment c k m = ground (arith, get-put c k (count c m + 1) m, eq_iff c k)

port_status-write :
    (r : Request) (ps : PortStatus) (s : Server) (q : Text)
    → port_status q (write r ps s) ≡ (if port r == q then ps else port_status q s)
unfolding port_status
port_status-write r ps s q = ground (arith, get-put (port r) q ps s.port_statuses)

statuses-is_forced :
    (r : Request) (seed : ℕ) (s : Server) (q : Text)
    → port_status q (is_forced_status r seed s).0 ≡ port_status q s
unfolding is_forced_status port_status
statuses-is_forced r seed s q = ground arith

requested_status-count :
    (r : Request) (seed : ℕ) (ps : PortStatus) (c k : ℤ)
    → (requested_status r seed ps).1 ≡ some c
    → count k (requested_status r seed ps).0.counts_by_requested_status ≡ (
        if c == k
        then count k ps.counts_by_requested_status + 1
        else count k ps.counts_by_requested_status)
unfolding requested_status
requested_status-count r seed ps c k e =
    ground (arith, count-increment c k ps.counts_by_requested_status)

status_answered :
    (r : Request) (seed : ℕ) (s : Server) (c : ℤ) (w : Bool)
    → (status r seed s).1 ≡ answered c w
    → let rs = requested_status r seed (port_status (port r) s) in
      (rs.1 ≡ some c) × ((status r seed s).0 ≡ (is_forced_status r seed (write r rs.0 s)).0)
unfolding status
status_answered r seed s c w e = ground arith

-- A request of /status that is answered with c has counted c once as a requested status of its port,
-- and no other status, and of no other port.
pub status-counts :
    (r : Request) (seed : ℕ) (s : Server) (c k : ℤ) (w : Bool) (q : Text)
    → (status r seed s).1 ≡ answered c w
    → count k (port_status q (status r seed s).0).counts_by_requested_status ≡ (
        if port r == q
        then (if c == k
            then count k (port_status q s).counts_by_requested_status + 1
            else count k (port_status q s).counts_by_requested_status)
        else count k (port_status q s).counts_by_requested_status)
status-counts r seed s c k w q e =
    let (asked, after) = status_answered r seed s c w e in
    let rs = requested_status r seed (port_status (port r) s) in
    rw (after, statuses-is_forced r seed (write r rs.0 s) q, port_status-write r rs.0 s q)
      (ground (
        arith,
        eq_iff (port r) q,
        requested_status-count r seed (port_status (port r) s) c k asked,
      ))

-- A flip-flop request with two or more statuses, but fewer than its id went through before, to a port
-- that is not locked: the handler panics and leaves the port locked.
pub flipflop_panic_locks :
    (r : Request) (seed : ℕ) (s : Server) (config : FlipFlopConfig) (a b : ℤ) (l : List ℤ)
    → (port_status (port r) s).locked ≡ false
    → contains r.request_uri (codes "flipflop") ≡ true
    → (get_status_param r).statuses ≡ a ∷ b ∷ l
    → get
        (get_string_param_value r (codes "x-request-id"))
        (port_status (port r) s).flipflop_configs
      ≡ some config
    → length (a ∷ b ∷ l) < config.last_status_index
    → ((status r seed s).1 ≡ StatusAnswer.panicked)
      × ((port_status (port r) (status r seed s).0).locked ≡ true)
unfolding status requested_status flipflop
flipflop_panic_locks r seed s config a b l free u st found short =
    rw (free, u, st)
      (ground (
        arith,
        found,
        flip_many_panics (a ∷ b ∷ l) config short,
        port_status-write r (record (port_status (port r) s) { locked = true }) s (port r),
        eq_refl (port r),
      ))

status-other :
    (r : Request) (seed : ℕ) (s : Server) (q : Text)
    → (port r == q) ≡ false
    → port_status q (status r seed s).0 ≡ port_status q s
unfolding status
status-other r seed s q h = ground (
  arith,
  port_status-write r (port_status (port r) s) s q,
  port_status-write r (requested_status r seed (port_status (port r) s)).0 s q,
  statuses-is_forced r seed (write r (requested_status r seed (port_status (port r) s)).0 s) q,
)

status-locked :
    (r : Request) (seed : ℕ) (s : Server)
    → (port_status (port r) s).locked ≡ true
    → ((status r seed s).1 ≡ StatusAnswer.blocked)
      × ((clear_status r s).1 ≡ Answer.blocked)
      × ((port_status (port r) (status r seed s).0).locked ≡ true)
unfolding status clear_status
status-locked r seed s l =
    ground (arith, port_status-write r (port_status (port r) s) s (port r), eq_refl (port r))

-- On a locked port a request of /status and one that clears the statuses wait for ever, and after any
-- request of /status to any port it is locked still.
pub locked_port_blocks :
    (r r' : Request) (seed : ℕ) (s : Server)
    → (port_status (port r) s).locked ≡ true
    → ((status r seed s).1 ≡ StatusAnswer.blocked)
      × ((clear_status r s).1 ≡ Answer.blocked)
      × ((port_status (port r) (status r' seed s).0).locked ≡ true)
locked_port_blocks r r' seed s l = ground (
  arith,
  status-locked r seed s l,
  eq_iff (port r') (port r),
  status-locked r' seed s,
  status-other r' seed s (port r),
)
