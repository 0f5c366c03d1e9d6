-- ===== src/Filter/History.antt =====
-- Sequences of calls on one filter.
use goto.Prelude.{List, [], ◌∷◌}
use goto.Params.Mux.{Request}
use goto.Filter.{
  RegexpLib, RequestFilter, add_filter_header_or_uri, remove_ignore_header_or_uri,
  set_or_get_ignore_status, reset_count, clear,
}
use goto.Filter.Serving.{match_uri, match_headers}

module _ (re : RegexpLib) where
  -- What can happen to a filter: a call of a handler, or a request that it is asked about.
  pub data Call : Type 0 where
    resets clears : Call
    adds removes sets_status asks_uri asks_headers : Request → Call

  unfoldable pub step : RequestFilter re → Call → RequestFilter re
  step rf resets = (reset_count re rf).0
  step rf clears = (clear re rf).0
  step rf (adds r) = (add_filter_header_or_uri re r rf).0
  step rf (removes r) = (remove_ignore_header_or_uri re r rf).0
  step rf (sets_status r) = (set_or_get_ignore_status re r rf).0
  step rf (asks_uri r) = (match_uri re r rf).0
  step rf (asks_headers r) = (match_headers re r rf).0

  unfoldable pub run : RequestFilter re → List Call → RequestFilter re
  run rf [] = rf
  run rf (c ∷ cs) = run (step rf c) cs
