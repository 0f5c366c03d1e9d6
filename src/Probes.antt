-- ===== src/Probes.antt =====
-- pkg/server/probes/probes.go: readiness and liveness probes, their statuses and counts, by port.
-- A port's PortProbes holds the fields of two probes; each is a `Probe` here.
pub mod Counting
pub mod Serving
pub mod Setting
pub mod Countdown
use goto.Prelude.{
  ℕ, ◌+◌, ◌%◌, ◌^◌, Bool, true, false, ◌&&◌, not, Option, none, some, List, [], ◌∷◌, nat_beq,
  if◌then◌else◌, ℤ, pos, negsuc, pred_ℤ, leb_ℤ, is_positive, ◌==◌, int_eq, Text, codes, text_eq,
  equal_fold, to_lower,
}
use goto.Prelude.Dict.{Dict, get, put}
use goto.Params.Mux.{
  Request, StatusParam, get_string_param, get_string_param_value, get_status_param,
}
use goto.Params.Port.{port}

pub record Probe : Type 0 where
  pub uri : Text
  pub status : ℤ
  pub remaining : ℤ
  pub count : ℕ
  pub overflow : ℕ

pub record PortProbes : Type 0 where
  pub readiness : Probe
  pub liveness : Probe

abbrev pub new_probe : Text → Probe
new_probe uri = record { uri = uri; status = pos 200; remaining = pos 0; count = 0; overflow = 0 }

abbrev pub new_port_probes : PortProbes
new_port_probes = record {
  readiness = new_probe (codes "/ready");
  liveness = new_probe (codes "/live");
}

-- probesByPort.
abbrev pub ProbesByPort : Type 0
ProbesByPort = Dict Text PortProbes

abbrev or_new : Option PortProbes → PortProbes
or_new none = new_port_probes
or_new (some pp) = pp

-- The probes that GetPortProbes returns; it also enters them in the map.
unfoldable pub port_probes : Text → ProbesByPort → PortProbes
port_probes p s = or_new (get p s)

unfoldable pub get_port_probes : Text → ProbesByPort → ProbesByPort × PortProbes
get_port_probes p s = let pp = port_probes p s in (put p pp s, pp)

unfoldable pub init_port_probes : Request → ProbesByPort → ProbesByPort × PortProbes
init_port_probes r s = get_port_probes (port r) s

-- The probes are shared by reference: what a handler writes is in the map.
store_probes : Request → ProbesByPort → PortProbes → ProbesByPort
store_probes r s pp = put (port r) pp s

pub data ProbeType : Type 0 where
  readiness liveness invalid : ProbeType

unfoldable pub probe_type : Text → ProbeType
probe_type t =
    if equal_fold t (codes "readiness")
    then readiness
    else if equal_fold t (codes "liveness")
    then liveness
    else invalid

pub data Answer : Type 0 where
  done : Answer
  bad_request : Answer
  panicked : Answer

abbrev pub update : ProbeType → (Probe → Probe) → PortProbes → PortProbes
update readiness f pp = record pp { readiness = f pp.readiness }
update liveness f pp = record pp { liveness = f pp.liveness }
update invalid f pp = pp

abbrev pub reset_uri : Text → Probe → Probe
reset_uri uri p = record p { uri = to_lower uri; count = 0 }

abbrev pub with_probes : Request → (PortProbes → PortProbes) → ProbesByPort → ProbesByPort × Answer
with_probes r f s = let (s', pp) = init_port_probes r s in (put (port r) (f pp) s', done)

abbrev pub set_uri : Request → ProbeType → Text × Bool → ProbesByPort → ProbesByPort × Answer
set_uri r invalid param s = (s, bad_request)
set_uri r t (uri, false) s = (s, bad_request)
set_uri r t (uri, true) s = with_probes r (update t (reset_uri uri)) s

unfoldable pub set_probe : Request → ProbesByPort → ProbesByPort × Answer
set_probe r s =
    set_uri r (probe_type (get_string_param_value r (codes "type")))
      (get_string_param r (codes "uri")) s

abbrev pub assign_status : ℤ → ℤ → Probe → Probe
assign_status status count p = record p {
  status = if is_positive status then status else pos 200;
  remaining = if leb_ℤ count (pos 0) then negsuc 0 else count;
}

-- `statuses[0]` of an empty slice panics; the probes have been entered in the map by then.
abbrev pub first_status : Request → ProbeType → List ℤ → ℤ → ProbesByPort → ProbesByPort × Answer
first_status r t [] times s = ((init_port_probes r s).0, panicked)
first_status r t (status ∷ rest) times s = with_probes r (update t (assign_status status times)) s

abbrev pub set_status : Request → ProbeType → StatusParam → ProbesByPort → ProbesByPort × Answer
set_status r invalid param s = (s, bad_request)
set_status r t param s =
    if param.present then first_status r t param.statuses param.times s else (s, bad_request)

unfoldable pub set_probe_status : Request → ProbesByPort → ProbesByPort × Answer
set_probe_status r s =
    set_status r (probe_type (get_string_param_value r (codes "type"))) (get_status_param r) s

abbrev clear_count : Probe → Probe
clear_count p = record p { count = 0 }

unfoldable pub clear_probe_counts : Request → ProbesByPort → ProbesByPort × Answer
clear_probe_counts r s =
    with_probes r
      (λ pp. record { readiness = clear_count pp.readiness; liveness = clear_count pp.liveness }) s

abbrev pub u64 : ℕ
u64 = 18446744073709551616

abbrev use_up : Probe → Probe
use_up p =
    if is_positive p.remaining
    then (if pred_ℤ p.remaining == pos 0
        then record p { remaining = negsuc 0; status = pos 200 }
        else record p { remaining = pred_ℤ p.remaining })
    else p

abbrev count_up : Probe → Probe
count_up p =
    let count' = (p.count + 1) % u64 in
    record p {
      count = count';
      overflow = if nat_beq count' 0 then (p.overflow + 1) % u64 else p.overflow;
    }

-- What one call of a probe's URI does to the probe; it is answered with the status before.
unfoldable pub serve : Probe → Probe
serve p = count_up (use_up p)

-- The response's status, and the values of the two count headers; or the next handler's turn.
pub data Served : Type 0 where
  served : ProbeType → ℤ → ℕ → ℕ → Served
  to_next : Served

abbrev answer : ProbeType → ℤ → Probe → Served
answer t status p = served t status p.count p.overflow

unfoldable pub is_readiness_probe : Request → PortProbes → Bool
is_readiness_probe r pp = equal_fold r.request_uri pp.readiness.uri

unfoldable pub is_liveness_probe : Request → PortProbes → Bool
is_liveness_probe r pp = equal_fold r.request_uri pp.liveness.uri

unfoldable pub middleware_func : Request → ProbesByPort → ProbesByPort × Served
middleware_func r s =
    let (s', pp) = init_port_probes r s in
    if is_readiness_probe r pp
    then (
      put (port r) (record pp { readiness = serve pp.readiness }) s',
      answer readiness pp.readiness.status (serve pp.readiness),
    )
    else if is_liveness_probe r pp
    then (
      put (port r) (record pp { liveness = serve pp.liveness }) s',
      answer liveness pp.liveness.status (serve pp.liveness),
    )
    else (s', to_next)
