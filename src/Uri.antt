-- ===== src/Uri.antt =====
-- pkg/server/request/uri/uri.go: statuses and delays of single URIs and of URIs with a common beginning.
-- The path of a request's URL is an argument, and so is time.ParseDuration. A map's entries stand in the
-- order in which `range` goes over them.
pub mod Serving
pub mod Countdown
use goto.Prelude.{
  ℕ, ◌+◌, Bool, true, false, ◌&&◌, ◌||◌, not, Option, none, some, List, [], ◌∷◌, if◌then◌else◌, ℤ,
  pos, leb_ℤ, is_positive, pred_ℤ, int_eq, Text, codes, text_eq, ◌==◌, to_lower, has_prefix,
}
use goto.Prelude.Dict.{Dict, get, put, delete}
use goto.Params.Numbers.{parse_int, value, half_32}
use goto.Params.Mux.{Request, StatusParam, get_string_param, get_status_param, var, split}
use goto.Params.Port.{port}
use goto.Filter.Patterns.{unglob}
use goto.Status.Config.{random_from, first_positive}

pub record UriStatusConfig : Type 0 where
  pub uri : Text
  pub glob : Bool
  pub statuses : List ℤ
  pub times : ℤ

pub record DelayConfig : Type 0 where
  pub uri : Text
  pub glob : Bool
  pub delay : ℤ
  pub times : ℤ

-- One port's entries of uriCountsByPort, uriStatusByPort and uriDelayByPort.
pub record PortUris : Type 0 where
  pub counts : Dict Text ℕ
  pub statuses : Dict Text UriStatusConfig
  pub delays : Dict Text DelayConfig

pub record Uris : Type 0 where
  pub ports : Dict Text PortUris
  pub track_uri_call_counts : Bool

abbrev or_new : Option PortUris → PortUris
or_new none = record { counts = []; statuses = []; delays = [] }
or_new (some u) = u

unfoldable pub port_uris : Text → Uris → PortUris
port_uris p s = or_new (get p s.ports)

-- initPort, and what is written to the port's maps then.
abbrev pub write : Request → PortUris → Uris → Uris
write r u s = record s { ports = put (port r) u s.ports }

pub data Answer : Type 0 where
  done : Answer
  bad_request : Answer
  panicked : Answer

abbrev enter_status : Text × Bool → StatusParam → List ℤ → PortUris → PortUris × Answer
enter_status (uri, glob) p [] u = (u, panicked)
enter_status (uri, glob) p (c ∷ cs) u =
    if is_positive c
    then (
      record u {
        statuses =
            put uri (record { uri = uri; glob = glob; statuses = c ∷ cs; times = p.times })
              u.statuses;
      },
      done,
    )
    else (record u { statuses = delete uri u.statuses }, done)

abbrev set_status_of : Text × Bool → StatusParam → PortUris → PortUris × Answer
set_status_of (uri, glob) p u =
    if p.present
    then enter_status (uri, glob) p p.statuses u
    else (record u { statuses = delete uri u.statuses }, done)

abbrev written : Request → Uris → PortUris × Answer → Uris × Answer
written r s (u, a) = (write r u s, a)

unfoldable pub set_status : Request → Uris → Uris × Answer
set_status r s =
    let (uri, present) = get_string_param r (codes "uri") in
    let u = port_uris (port r) s in
    if present
    then written r s (set_status_of (unglob (to_lower uri)) (get_status_param r) u)
    else (write r u s, bad_request)

-- The delay and the times of the parameter `delay`.
abbrev timed : List Text → Option ℤ → ℤ × ℤ
timed rest none = (pos 0, pos 0)
timed [] (some d) = (d, pos 0)
timed (t ∷ ts) (some d) = (d, value (parse_int half_32 t))

abbrev delay_param : (Text → Option ℤ) → List Text → ℤ × ℤ
delay_param parse_duration [] = (pos 0, pos 0)
delay_param parse_duration ([] ∷ rest) = (pos 0, pos 0)
delay_param parse_duration ((c ∷ s) ∷ rest) = timed rest (parse_duration (c ∷ s))

abbrev set_delay_of : Text × Bool → ℤ × ℤ → PortUris → PortUris
set_delay_of (uri, glob) (d, times) u =
    if is_positive d
    then record u {
      delays = put uri (record { uri = uri; glob = glob; delay = d; times = times }) u.delays;
    }
    else record u { delays = delete uri u.delays }

unfoldable pub set_delay : (Text → Option ℤ) → Request → Uris → Uris × Answer
set_delay parse_duration r s =
    let (uri, present) = get_string_param r (codes "uri") in
    let u = port_uris (port r) s in
    if present
    then (
      write r
          (set_delay_of (unglob (to_lower uri))
            (delay_param parse_duration (split b':' (var r (codes "delay")))) u)
          s,
      done,
    )
    else (write r u s, bad_request)

unfoldable pub clear_uri_call_counts : Request → Uris → Uris
clear_uri_call_counts r s = write r (record (port_uris (port r) s) { counts = [] }) s

unfoldable pub enable_uri_call_counts : Uris → Uris
enable_uri_call_counts s = record s { track_uri_call_counts = true }

unfoldable pub disable_uri_call_counts : Uris → Uris
disable_uri_call_counts s = record s { track_uri_call_counts = false }
