-- ===== src/Tracking.antt =====
-- pkg/server/request/tracking/tracking.go: how often each port's URIs and headers were seen, by key.
-- http.Header.Get is an argument where the code calls it; a map of headers is read as it is else.
-- Each operation is one step; the counts are not bounded.
pub mod Counting
pub mod Clearing
pub mod Served
pub mod Reachable
pub mod History
use goto.Prelude.{
  ℕ, ◌+◌, Option, none, some, List, [], ◌∷◌, if◌then◌else◌, ℤ, int_eq, Text, codes, text_eq,
}
use goto.Prelude.Dict.{Dict, get, put, delete}
use goto.Params.Mux.{Request, get_string_param, split}
use goto.Params.Port.{port_num}

pub record HeaderData : Type 0 where
  pub request_counts_by_header : ℕ
  pub request_counts_by_header_value : Dict Text ℕ

abbrev pub new_header_data : HeaderData
new_header_data = record { request_counts_by_header = 0; request_counts_by_header_value = [] }

-- HeaderData.init
abbrev pub init_header_data : HeaderData → HeaderData
init_header_data hd = record hd { request_counts_by_header_value = [] }

abbrev pub count_of : Option ℕ → ℕ
count_of none = 0
count_of (some n) = n

-- m[k]++
unfoldable pub increment : Text → Dict Text ℕ → Dict Text ℕ
increment k m = put k (count_of (get k m) + 1) m

abbrev pub count_value : Text → Dict Text ℕ → Dict Text ℕ
count_value [] m = m
count_value (c ∷ s) m = increment (c ∷ s) m

-- trackRequest
unfoldable pub track_request : Text → HeaderData → HeaderData
track_request hv hd = record {
  request_counts_by_header = hd.request_counts_by_header + 1;
  request_counts_by_header_value = count_value hv hd.request_counts_by_header_value;
}

unfoldable pub track_requests : List Text → HeaderData → HeaderData
track_requests [] hd = hd
track_requests (hv ∷ hvs) hd = track_requests hvs (track_request hv hd)

pub record TrackingData : Type 0 where
  pub by_header : Dict Text HeaderData
  pub by_uri : Dict Text ℕ
  pub by_uri_and_header : Dict Text (Dict Text HeaderData)

-- TrackingData.init
abbrev pub new_tracking_data : TrackingData
new_tracking_data = record { by_header = []; by_uri = []; by_uri_and_header = [] }

unfoldable pub init_uri : Text → TrackingData → TrackingData
init_uri uri d = record d {
  by_uri = put uri 0 d.by_uri;
  by_uri_and_header = put uri [] d.by_uri_and_header;
}

unfoldable pub fresh_headers : List Text → Dict Text HeaderData → Dict Text HeaderData
fresh_headers [] m = m
fresh_headers (h ∷ hs) m = fresh_headers hs (put h new_header_data m)

unfoldable pub init_uri_and_headers : Text → List Text → TrackingData → TrackingData
init_uri_and_headers uri headers d = record d {
  by_uri = put uri 0 d.by_uri;
  by_uri_and_header = put uri (fresh_headers headers []) d.by_uri_and_header;
}

abbrev pub present_or_new : Text → Dict Text HeaderData → Dict Text HeaderData
present_or_new h m = elim (get h m) [ none ↦ put h new_header_data m | some hd ↦ m ]

unfoldable pub add_headers : List Text → Dict Text HeaderData → Dict Text HeaderData
add_headers [] m = m
add_headers (h ∷ hs) m = add_headers hs (present_or_new h m)

unfoldable pub init_headers : List Text → TrackingData → TrackingData
init_headers headers d = record d { by_header = add_headers headers d.by_header }

unfoldable pub remove_header : Text → TrackingData → TrackingData
remove_header h d = record d { by_header = delete h d.by_header }

unfoldable pub map_headers :
    (Text → HeaderData → HeaderData) → Dict Text HeaderData → Dict Text HeaderData
map_headers f [] = []
map_headers f ((h, hd) ∷ m) = (h, f h hd) ∷ map_headers f m

unfoldable pub clear_counts : TrackingData → TrackingData
clear_counts d = record d { by_header = map_headers (λ h. init_header_data) d.by_header }

abbrev pub values_of : Option (List Text) → List Text
values_of none = []
values_of (some hvs) = hvs

abbrev pub or_none : Option (Dict Text HeaderData) → Dict Text HeaderData
or_none none = []
or_none (some m) = m

abbrev pub track_values : Dict Text (List Text) → Text → HeaderData → HeaderData
track_values headers h hd = track_requests (values_of (get h headers)) hd

-- A range over the headers of a URI that is in no map goes over nothing.
abbrev pub update_uri :
    (Dict Text HeaderData → Dict Text HeaderData)
    → Text
    → Dict Text (Dict Text HeaderData)
    → Dict Text (Dict Text HeaderData)
update_uri f uri m = elim (get uri m) [ none ↦ m | some hs ↦ put uri (f hs) m ]

-- TrackingData.track
unfoldable pub track_call : Text → Dict Text (List Text) → TrackingData → TrackingData
track_call uri headers d = record {
  by_header = map_headers (track_values headers) d.by_header;
  by_uri = increment uri d.by_uri;
  by_uri_and_header = update_uri (map_headers (track_values headers)) uri d.by_uri_and_header;
}

abbrev pub track_nonempty : Text → HeaderData → HeaderData
track_nonempty [] hd = hd
track_nonempty (c ∷ s) hd = track_request (c ∷ s) hd

abbrev increment_present : Text → Dict Text ℕ → Dict Text ℕ
increment_present uri m = elim (get uri m) [ none ↦ m | some n ↦ put uri (n + 1) m ]

-- The function `track` of the middleware.
unfoldable pub track_request_of : (Text → Text) → Text → TrackingData → TrackingData
track_request_of header_get uri d = record {
  by_header = map_headers (λ h. track_nonempty (header_get h)) d.by_header;
  by_uri = increment_present uri d.by_uri;
  by_uri_and_header =
      update_uri (map_headers (λ h. track_nonempty (header_get h))) uri d.by_uri_and_header;
}

abbrev track_present : Text → Text → Dict Text HeaderData → Dict Text HeaderData
track_present h v m = elim (get h m) [ none ↦ m | some hd ↦ put h (track_request v hd) m ]

unfoldable pub track_matched : Dict Text (List Text) → Dict Text HeaderData → Dict Text HeaderData
track_matched [] m = m
track_matched ((h, []) ∷ rest) m = track_matched rest m
track_matched ((h, v ∷ vs) ∷ rest) m = track_matched rest (track_present h v m)

-- Track, which the hooks call.
unfoldable pub track_hook : Text → Dict Text (List Text) → TrackingData → TrackingData
track_hook uri matched d = record {
  by_header = track_matched matched d.by_header;
  by_uri = increment uri d.by_uri;
  by_uri_and_header =
      put uri (track_matched matched (or_none (get uri d.by_uri_and_header))) d.by_uri_and_header;
}

abbrev pub RequestTracking : Type 0
RequestTracking = Dict Text (Dict ℤ TrackingData)

abbrev or_new : Option TrackingData → TrackingData
or_new none = new_tracking_data
or_new (some d) = d

abbrev or_empty : Option (Dict ℤ TrackingData) → Dict ℤ TrackingData
or_empty none = []
or_empty (some m) = m

unfoldable pub tracking_data : Text → ℤ → RequestTracking → TrackingData
tracking_data key port rt = or_new (get port (or_empty (get key rt)))

-- getPortRequestTrackingData, and what is written through the pointer that it returns.
unfoldable pub update_port :
    Text → ℤ → (TrackingData → TrackingData) → RequestTracking → RequestTracking
update_port key port f rt =
    put key (put port (f (tracking_data key port rt)) (or_empty (get key rt))) rt

-- The handlers: what a request does to the tracking of its key and port.
unfoldable pub clear : Text → Request → RequestTracking → RequestTracking
clear key r = update_port key (port_num r) (λ d. new_tracking_data)

unfoldable pub clear_header_counts : Text → Request → RequestTracking → RequestTracking
clear_header_counts key r =
    let (headers, present) = get_string_param r (codes "headers") in
    update_port key (port_num r)
      (λ d. if present then init_headers (split b',' headers) d else clear_counts d)

-- The list parameter `headers` is an argument.
unfoldable pub init_request_headers :
    Text → Option (List Text) → Request → RequestTracking → RequestTracking
init_request_headers key none r rt = rt
init_request_headers key (some headers) r rt =
    update_port key (port_num r) (init_headers headers) rt

unfoldable pub remove_all : List Text → TrackingData → TrackingData
remove_all [] d = d
remove_all (h ∷ hs) d = remove_all hs (remove_header h d)

unfoldable pub remove_headers :
    Text → Option (List Text) → Request → RequestTracking → RequestTracking
remove_headers key none r rt = rt
remove_headers key (some headers) r rt = update_port key (port_num r) (remove_all headers) rt

-- The middleware, behind the next handler.
unfoldable pub middleware_func : (Text → Text) → Request → RequestTracking → RequestTracking
middleware_func header_get r rt =
    if r.store.is_known_non_traffic
    then rt
    else update_port [] (port_num r) (track_request_of header_get r.request_uri) rt
