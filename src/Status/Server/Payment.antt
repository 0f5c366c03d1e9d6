-- ===== src/Status/Server/Payment.antt =====
-- What one request takes from the times of a forced status (status.go, IsForcedStatus and
-- computeResponseStatus).
use goto.Prelude.{
  ℕ, suc, ◌≡◌, refl, arith, true, false, some, List, [], ◌∷◌, ◌++◌, if◌then◌else◌, ℤ, pos, negsuc,
  is_positive, to_lower, int_eq, ◌∙◌,
}
use goto.Prelude.Dict.{get}
use goto.Params.Mux.{Request}
use goto.Params.Port.{port_num}
use goto.Status.Config.{StatusConfig, get_status, status_match, to_lower_headers_values}
use goto.Status.Config.Countdown.{get_status_single, get_status_step}
use goto.Status.Manager.Serving.{NoneMatches, get_status_for-append}
use goto.Status.Server.{Server, is_forced_status, compute_response_status}

-- The first config of the request's port that is for the request.
pub record IsFirst (r : Request) (s : Server) (pre : List StatusConfig) (sc : StatusConfig)
    (post : List StatusConfig) : Type 0 where
  pub listed : get (port_num r) s.manager ≡ some (pre ++ sc ∷ post)
  pub none_before : NoneMatches (to_lower r.request_uri) (to_lower_headers_values r.headers) pre
  pub matches :
      status_match sc.match (to_lower r.request_uri) (to_lower_headers_values r.headers) ≡ true

compute_response_status_lem :
    (r : Request) (seed : ℕ) (s : Server) (pre post : List StatusConfig) (sc : StatusConfig)
    (original : ℤ)
    → IsFirst r s pre sc post
    → let result = (get_status seed sc).1 in
      (compute_response_status original r seed s).1 ≡ record {
        status = if is_positive result.0 then result.0 else original;
        remaining = result.1;
        overridden = is_positive result.0;
      }
unfolding compute_response_status
compute_response_status_lem r seed s pre post sc original first =
    rw
      (get_status_for-append (port_num r) r.request_uri r.method r.headers seed pre post sc
        s.manager first.listed first.none_before first.matches).1

module _ (r : Request) (seed : ℕ) (s : Server) (pre post : List StatusConfig) (sc : StatusConfig)
    (first : IsFirst r s pre sc post) where
  is_forced_status_lem :
      (get (port_num r) (is_forced_status r seed s).0.manager
        ≡ some (pre ++ (get_status seed sc).0 ∷ post))
      × ((is_forced_status r seed s).1 ≡ (
          if is_positive (get_status seed sc).1.0
          then is_positive (get_status seed sc).1.1
          else false))
  unfolding is_forced_status
  is_forced_status_lem = ground (
    arith,
    get_status_for-append (port_num r) r.request_uri r.method r.headers seed pre post sc s.manager
        first.listed first.none_before first.matches,
  )

  get_status_forever_times : sc.times ≡ negsuc 0 → is_positive (get_status seed sc).1.1 ≡ false
  unfolding get_status
  get_status_forever_times e = ground arith

  -- A status that is forced for ever, by the first config that is for a request, is not reported as
  -- forced.
  pub forever_is_not_forced : sc.times ≡ negsuc 0 → (is_forced_status r seed s).1 ≡ false
  forever_is_not_forced e = ground (arith, is_forced_status_lem, get_status_forever_times e)

  -- Of a positive status that is forced n + 2 times, by the first config that is for a request, the
  -- request takes two by asking whether it is forced and then being given it: n times are left.
  pub paid_twice :
      (c n : ℕ) (original : ℤ)
      → sc.statuses ≡ pos (suc c) ∷ []
      → sc.times ≡ pos (suc (suc n))
      → (compute_response_status original r seed (is_forced_status r seed s).0).1
        ≡ record { status = pos (suc c); remaining = pos n; overridden = true }
  paid_twice c n original e h =
      compute_response_status_lem r seed (is_forced_status r seed s).0 pre post
        (record sc { times = pos (suc n) }) original asked
      ∙ rw (get_status_single seed n (pos (suc c)) (record sc { times = pos (suc n) }) e refl)
          (ground arith)
    where
      asked : IsFirst r (is_forced_status r seed s).0 pre (record sc { times = pos (suc n) }) post
      asked = record {
        listed = rw (← get_status_step seed (suc n) sc h) is_forced_status_lem.0;
        none_before = first.none_before;
        matches = first.matches;
      }
