-- ===== src/Uri/Countdown.antt =====
-- How often a URI's status is given (uri.go, setStatus, GetURIStatus and computeURIStatus).
use goto.Prelude.{
  ℕ, zero, suc, ◌≤◌, ◌≡◌, arith, Bool, true, none, some, List, [], ◌∷◌, if◌then◌else◌, nat_beq, ℤ,
  pos, negsuc, int_eq, Text, codes, text_eq, ◌==◌, eq_refl, to_lower,
}
use goto.Prelude.Dict.{Dict, get, put, get-put, get-delete}
use goto.Params.Mux.{Request, get_string_param, get_status_param}
use goto.Params.Port.{port}
use goto.Filter.Patterns.{unglob}
use goto.Uri.{UriStatusConfig, Uris, port_uris, set_status}
use goto.Uri.Serving.{get_uri_status, find_uri_config, compute_uri_status}

abbrev pub config : Text → Bool → List ℤ → ℤ → UriStatusConfig
config uri glob statuses times = record {
  uri = uri;
  glob = glob;
  statuses = statuses;
  times = times;
}

-- What a request of a URI does to the statuses of its port, and the status that it is given.
abbrev pub request : ℕ → Text → Dict Text UriStatusConfig → Dict Text UriStatusConfig × ℤ
request seed uri m = compute_uri_status seed (get_uri_status uri m) m

unfoldable pub requests : ℕ → ℕ → Text → Dict Text UriStatusConfig → Dict Text UriStatusConfig
requests zero seed uri m = m
requests (suc k) seed uri m = requests k seed uri (request seed uri m).0

get_uri_status_found :
    (uri : Text) (glob : Bool) (c t : ℕ) (m : Dict Text UriStatusConfig)
    → get uri m ≡ some (config uri glob (pos (suc c) ∷ []) (pos (suc t)))
    → get_uri_status uri m ≡ some (config uri glob (pos (suc c) ∷ []) (pos (suc t)))
unfolding get_uri_status find_uri_config
get_uri_status_found uri glob c t m e = ground (arith, e)

compute_lem :
    (seed : ℕ) (uri : Text) (glob : Bool) (c t : ℕ) (m : Dict Text UriStatusConfig) (j : Text)
    → let result =
        compute_uri_status seed (some (config uri glob (pos (suc c) ∷ []) (pos (suc t)))) m in
      (result.1 ≡ pos (suc c))
      × (get j result.0 ≡ (
          if uri == j
          then (if nat_beq t 0 then none else some (config uri glob (pos (suc c) ∷ []) (pos t)))
          else get j m))
unfolding compute_uri_status
compute_lem seed uri glob c t m j =
    ground (arith, get-put uri j (config uri glob (pos (suc c) ∷ []) (pos t)) m, get-delete uri j m)

request_lem :
    (seed : ℕ) (uri : Text) (glob : Bool) (c t : ℕ) (m : Dict Text UriStatusConfig) (j : Text)
    → get uri m ≡ some (config uri glob (pos (suc c) ∷ []) (pos (suc t)))
    → ((request seed uri m).1 ≡ pos (suc c))
      × (get j (request seed uri m).0 ≡ (
          if uri == j
          then (if nat_beq t 0 then none else some (config uri glob (pos (suc c) ∷ []) (pos t)))
          else get j m))
request_lem seed uri glob c t m j e =
    rw (get_uri_status_found uri glob c t m e) (compute_lem seed uri glob c t m j)

countdown :
    (seed k n : ℕ) (uri : Text) (glob : Bool) (c : ℕ) (m : Dict Text UriStatusConfig)
    → get uri m ≡ some (config uri glob (pos (suc c) ∷ []) (pos (suc n)))
    → k ≤ n
    → ((request seed uri (requests k seed uri m)).1 ≡ pos (suc c))
      × (get uri (requests (suc n) seed uri m) ≡ none)
unfolding requests
countdown seed zero zero uri glob c m e le =
    ground (arith, request_lem seed uri glob c 0 m uri e, eq_refl uri)
countdown seed zero (suc n) uri glob c m e le =
    let (first, next) = request_lem seed uri glob c (suc n) m uri e in
    let m' = (request seed uri m).0 in
    (
      first,
      (countdown seed zero n uri glob c m' (ground (arith, next, eq_refl uri)) (omega arith)).1,
    )
countdown seed (suc k) zero uri glob c m e le = ground (arith, le)
countdown seed (suc k) (suc n) uri glob c m e le =
    let (first, next) = request_lem seed uri glob c (suc n) m uri e in
    let m' = (request seed uri m).0 in
    countdown seed k n uri glob c m' (ground (arith, next, eq_refl uri)) (omega (arith, le))

-- The statuses of a port after a status was set for a URI.
port_uris-set_status :
    (r : Request) (s : Uris) (uri : Text) (c : ℕ) (cs : List ℤ) (times : ℤ) (j : Text)
    → get_string_param r (codes "uri") ≡ (uri, true)
    → get_status_param r ≡ record { statuses = pos (suc c) ∷ cs; times = times; present = true }
    → get j (port_uris (port r) (set_status r s).0).statuses ≡ (
        if (unglob (to_lower uri)).0 == j
        then some
            (config (unglob (to_lower uri)).0 (unglob (to_lower uri)).1 (pos (suc c) ∷ cs) times)
        else get j (port_uris (port r) s).statuses)
unfolding port_uris set_status
port_uris-set_status r s uri c cs times j e f =
    let u = port_uris (port r) s in
    let to = (unglob (to_lower uri)).0 in
    let entry = config to (unglob (to_lower uri)).1 (pos (suc c) ∷ cs) times in
    ground (
      arith,
      e,
      f,
      get-put (port r) (port r) (record u { statuses = put to entry u.statuses }) s.ports,
      eq_refl (port r),
      get-put to j entry u.statuses,
    )

-- A status that is set for a URI without a number of times is given to no request of that URI, though
-- it is to be given for ever.
uri_status_forever :
    (r : Request) (s : Uris) (uri : Text) (c : ℕ) (cs : List ℤ)
    → get_string_param r (codes "uri") ≡ (uri, true)
    → get_status_param r ≡ record { statuses = pos (suc c) ∷ cs; times = negsuc 0; present = true }
    → get_uri_status (unglob (to_lower uri)).0 (port_uris (port r) (set_status r s).0).statuses
      ≡ none
unfolding get_uri_status find_uri_config
uri_status_forever r s uri c cs e f =
    let to = (unglob (to_lower uri)).0 in
    ground (arith, port_uris-set_status r s uri c cs (negsuc 0) to e f, eq_refl to)

-- A status c that is set for a URI for n times (c, n > 0): the request of that URI that k < n others came
-- before is given c, and after n requests the URI has no status of its own.
pub uri_status_countdown :
    (seed k n : ℕ) (r : Request) (s : Uris) (uri : Text) (c : ℕ)
    → get_string_param r (codes "uri") ≡ (uri, true)
    → get_status_param r
      ≡ record { statuses = pos (suc c) ∷ []; times = pos (suc n); present = true }
    → k ≤ n
    → let to = (unglob (to_lower uri)).0 in
      let m = (port_uris (port r) (set_status r s).0).statuses in
      ((request seed to (requests k seed to m)).1 ≡ pos (suc c))
      × (get to (requests (suc n) seed to m) ≡ none)
uri_status_countdown seed k n r s uri c e f le =
    let to = (unglob (to_lower uri)).0 in
    let m = (port_uris (port r) (set_status r s).0).statuses in
    let set = port_uris-set_status r s uri c [] (pos (suc n)) to e f in
    countdown seed k n to (unglob (to_lower uri)).1 c m (ground (arith, set, eq_refl to)) le
