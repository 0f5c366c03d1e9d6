-- ===== src/Status/Manager/Serving.antt =====
-- Requests that a forced status is given to (statusManager.go, GetStatusFor).
use goto.Prelude.{
  ℕ, zero, suc, ◌+◌, ◌-◌, ◌≡◌, refl, arith, true, false, some, List, [], ◌∷◌, ◌++◌, All,
  if◌then◌else◌, ltb, ℤ, pos, Text, to_lower, int_eq, eq_refl, ◌∙◌, ap,
}
use goto.Prelude.Dict.{Dict, get, get-put}
use goto.Status.Config.{StatusConfig, get_status, status_match, to_lower_headers_values}
use goto.Status.Config.Countdown.{spent, forced_countdown}
use goto.Status.Manager.{StatusManager, serve_first, get_status_for}

-- No config of the list is for the request.
abbrev pub NoneMatches : Text → Dict Text Text → List StatusConfig → Type 0
NoneMatches uri headers = All (λ sc. status_match sc.match uri headers ≡ false)

serve_first-append :
    (uri : Text) (headers : Dict Text Text) (seed : ℕ) (pre post : List StatusConfig)
    (sc : StatusConfig)
    → NoneMatches uri headers pre
    → status_match sc.match uri headers ≡ true
    → serve_first uri headers seed (pre ++ sc ∷ post)
      ≡ (pre ++ (get_status seed sc).0 ∷ post, (get_status seed sc).1)
unfolding serve_first
serve_first-append uri headers seed [] post sc n h = rw h
serve_first-append uri headers seed (x ∷ pre) post sc n h =
    rw (n.0, serve_first-append uri headers seed pre post sc n.1 h)

pub match-get_status : (seed : ℕ) (sc : StatusConfig) → (get_status seed sc).0.match ≡ sc.match
unfolding get_status
match-get_status seed sc = ground arith

match-spent : (k : ℕ) (sc : StatusConfig) → (spent k sc).match ≡ sc.match
unfolding spent
match-spent zero sc = refl
match-spent (suc k) sc = match-spent k (get_status 0 sc).0 ∙ match-get_status 0 sc

pub get_status_seed : (seed : ℕ) (sc : StatusConfig) → (get_status seed sc).0 ≡ (get_status 0 sc).0
unfolding get_status
get_status_seed seed sc = ground arith

spent-get_status :
    (k seed : ℕ) (sc : StatusConfig) → (get_status seed (spent k sc)).0 ≡ spent (suc k) sc
unfolding spent
spent-get_status zero seed sc = get_status_seed seed sc
spent-get_status (suc k) seed sc = spent-get_status k seed (get_status 0 sc).0

pub requests : ℕ → ℤ → Text → Dict Text (List Text) → Text → ℕ → StatusManager → StatusManager
requests zero port uri headers method seed m = m
requests (suc k) port uri headers method seed m =
    (get_status_for port uri headers method seed (requests k port uri headers method seed m)).0

module _ (port : ℤ) (uri method : Text) (headers : Dict Text (List Text)) (seed : ℕ) where
  abbrev IsFor : StatusConfig → Type 0
  IsFor sc = status_match sc.match (to_lower uri) (to_lower_headers_values headers) ≡ true

  pub get_status_for-append :
      (pre post : List StatusConfig) (sc : StatusConfig) (m : StatusManager)
      → get port m ≡ some (pre ++ sc ∷ post)
      → NoneMatches (to_lower uri) (to_lower_headers_values headers) pre
      → IsFor sc
      → (get port (get_status_for port uri headers method seed m).0
          ≡ some (pre ++ (get_status seed sc).0 ∷ post))
        × ((get_status_for port uri headers method seed m).1 ≡ (get_status seed sc).1)
  unfolding get_status_for
  get_status_for-append pre post sc m e n h = ground (
    arith,
    serve_first-append (to_lower uri) (to_lower_headers_values headers) seed pre post sc n h,
    get-put port port (pre ++ (get_status seed sc).0 ∷ post) m,
    eq_refl port,
  )

  requests-append :
      (k : ℕ) (pre post : List StatusConfig) (sc : StatusConfig) (m : StatusManager)
      → get port m ≡ some (pre ++ sc ∷ post)
      → NoneMatches (to_lower uri) (to_lower_headers_values headers) pre
      → IsFor sc
      → get port (requests k port uri headers method seed m) ≡ some (pre ++ spent k sc ∷ post)
  unfolding requests
  requests-append zero pre post sc m e n h = unfold spent in e
  requests-append (suc k) pre post sc m e n h =
      (get_status_for-append pre post (spent k sc) (requests k port uri headers method seed m)
        (requests-append k pre post sc m e n h) n (rw (match-spent k sc) h)).0
      ∙ ap (λ (x : StatusConfig). some (pre ++ x ∷ post)) (spent-get_status k seed sc)

  -- If the first config of a port that is for a request has the one status c, to be given n times,
  -- then of such requests the one that k others came before gets c, with n - k - 1 left, if k < n, and
  -- none from then on, whatever configs stand behind.
  pub requests_countdown :
      (k n : ℕ) (c : ℤ) (pre post : List StatusConfig) (sc : StatusConfig) (m : StatusManager)
      → get port m ≡ some (pre ++ sc ∷ post)
      → NoneMatches (to_lower uri) (to_lower_headers_values headers) pre
      → IsFor sc
      → sc.statuses ≡ c ∷ []
      → sc.times ≡ pos n
      → (get_status_for port uri headers method seed (requests k port uri headers method seed m)).1
        ≡ (if ltb k n then (c, pos (n - (k + 1))) else (pos 0, pos 0))
  requests_countdown k n c pre post sc m e none' h s t =
      (get_status_for-append pre post (spent k sc) (requests k port uri headers method seed m)
        (requests-append k pre post sc m e none' h) none' (rw (match-spent k sc) h)).1
      ∙ forced_countdown seed k n c sc s t
