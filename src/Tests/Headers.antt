-- ===== src/Tests/Headers.antt =====
-- The header configs and the timeouts at concrete headers.
use goto.Prelude.{◌≡◌, refl, true, none, some, [], ◌∷◌, codes, Text, text_eq}
use goto.Prelude.Dict.{get}
use goto.Params.Mux.{Request, status_request, get_string_param, get_string_param_value, split}
use goto.Headers.{
  HeadersConfig, new_headers_config, union_config, update_headers, simple_headers, metadata,
}
use goto.Headers.Merging.{values_of, get-update_headers-union_config}
use goto.Timeouts.{TimeoutTracking, new_timeout_tracking, arrive, end_request, add_headers}
use goto.Timeouts.InFlight.{arrive_all, end_request-retracked}
use goto.Timeouts.Ended.{end_request-arrive}

abbrev adds_x : HeadersConfig
adds_x = record new_headers_config { to_add = (codes "x", codes "a") ∷ [] }

abbrev removes_x : HeadersConfig
removes_x = record new_headers_config { to_remove = codes "x" ∷ [] }

get-update_headers-union_config_example :
    (get (codes "x") (update_headers simple_headers (union_config adds_x (some removes_x)) [])
      ≡ some (codes "a"))
    × (values_of (
          get (codes "x") (
            update_headers metadata
              (union_config adds_x (some removes_x))
              ((codes "x", codes "b" ∷ []) ∷ [])))
        ≡ codes "a" ∷ [])
unfolding get text_eq
get-update_headers-union_config_example =
    get-update_headers-union_config (codes "x") adds_x removes_x []
      ((codes "x", codes "b" ∷ []) ∷ []) (refl, tt) tt

abbrev tracks_x : TimeoutTracking
tracks_x = record new_timeout_tracking { headers_map = (codes "x", []) ∷ [] }

abbrev only_a : Text → Text
only_a h = codes "a"

end_request-arrive_example :
    (t : TimeoutTracking) × (end_request true (arrive only_a tracks_x).1 (arrive only_a tracks_x).0
      ≡ some t)
end_request-arrive_example = end_request-arrive true only_a tracks_x

-- /timeout/track/headers/{headers}
abbrev track_x : Request
track_x = record (status_request "200") { vars = (codes "headers", codes "x") ∷ [] }

abbrev only_b : Text → Text
only_b h = codes "b"

end_request-retracked_example :
    end_request true
      ((codes "x", codes "a") ∷ [])
      (arrive_all (only_b ∷ []) (add_headers track_x (arrive only_a tracks_x).0).0)
    ≡ none
unfolding get_string_param get_string_param_value get text_eq split
end_request-retracked_example =
    end_request-retracked true ((codes "x", codes "a") ∷ []) (codes "x") (codes "a") track_x
      (arrive only_a tracks_x).0 (only_b ∷ []) refl refl refl refl
