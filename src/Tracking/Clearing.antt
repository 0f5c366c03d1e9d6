-- ===== src/Tracking/Clearing.antt =====
-- What the requests that clear header counts leave of them (tracking.go, clearHeaderCounts).
use goto.Prelude.{
  ◌≡◌, refl, arith, Bool, true, false, ◌&&◌, Option, none, some, List, [], ◌∷◌, if◌then◌else◌, ℤ,
  int_eq, Text, text_eq, codes, ◌==◌, eq_iff, eq_refl, any,
}
use goto.Prelude.Dict.{Dict, get, put, get-put}
use goto.Params.Mux.{Request, get_string_param, split}
use goto.Params.Port.{port_num}
use goto.Tracking.{
  HeaderData, new_header_data, init_header_data, TrackingData, map_headers, add_headers,
  present_or_new, or_empty, RequestTracking, tracking_data, update_port, init_headers, clear_counts,
  clear_header_counts,
}

abbrev pub map_option : (HeaderData → HeaderData) → Option HeaderData → Option HeaderData
map_option f none = none
map_option f (some hd) = some (f hd)

pub get-map_headers :
    (f : Text → HeaderData → HeaderData) (h : Text) (m : Dict Text HeaderData)
    → get h (map_headers f m) ≡ map_option (f h) (get h m)
unfolding get map_headers
get-map_headers f h [] = refl
get-map_headers f h ((j, hd) ∷ m) = ground (arith, eq_iff j h, get-map_headers f h m)

pub tracking_data-update_port :
    (key k : Text) (port p : ℤ) (f : TrackingData → TrackingData) (rt : RequestTracking)
    → tracking_data k p (update_port key port f rt)
      ≡ (if (key == k) && (port == p) then f (tracking_data k p rt) else tracking_data k p rt)
unfolding tracking_data update_port
tracking_data-update_port key k port p f rt = ground (
  arith,
  get-put key k (put port (f (tracking_data key port rt)) (or_empty (get key rt))) rt,
  get-put port p (f (tracking_data key port rt)) (or_empty (get key rt)),
  eq_iff key k,
  eq_iff port p,
)

abbrev pub or_added : Bool → Option HeaderData → Option HeaderData
or_added b (some hd) = some hd
or_added b none = if b then some new_header_data else none

get-present_or_new :
    (j h : Text) (m : Dict Text HeaderData)
    → get h (present_or_new j m) ≡ or_added (j == h) (get h m)
get-present_or_new j h m = ground (arith, eq_iff j h, get-put j h new_header_data m)

get-add_headers :
    (hs : List Text) (h : Text) (m : Dict Text HeaderData)
    → get h (add_headers hs m) ≡ or_added (any (λ j. j == h) hs) (get h m)
unfolding add_headers
get-add_headers [] h m = ground arith
get-add_headers (j ∷ hs) h m =
    ground (arith, get-add_headers hs h (present_or_new j m), get-present_or_new j h m)

-- What a header is tracked with for all URIs, by key and port.
abbrev pub header_at : Text → Text → ℤ → RequestTracking → Option HeaderData
header_at h key port rt = get h (tracking_data key port rt).by_header

-- A request to clear the header counts that names no headers: of each header tracked for its key and port
-- the counts by value are gone, and the count of its occurrences is what it was.
clearing_keeps_totals :
    (key h : Text) (r : Request) (rt : RequestTracking)
    → (get_string_param r (codes "headers")).1 ≡ false
    → header_at h key (port_num r) (clear_header_counts key r rt)
      ≡ map_option init_header_data (header_at h key (port_num r) rt)
unfolding clear_header_counts clear_counts init_headers
clearing_keeps_totals key h r rt unnamed = ground (
  arith,
  unnamed,
  eq_refl key,
  eq_refl (port_num r),
  tracking_data-update_port key key (port_num r) (port_num r)
      (λ d.
        if (get_string_param r (codes "headers")).1
        then init_headers (split b',' (get_string_param r (codes "headers")).0) d
        else clear_counts d)
      rt,
  get-map_headers (λ h. init_header_data) h (tracking_data key (port_num r) rt).by_header,
)

-- A request to clear the header counts that names headers clears none: what a header was tracked with
-- stays, and a named header that was not tracked is from then on, with no counts.
pub clearing_named_keeps :
    (key h : Text) (r : Request) (rt : RequestTracking)
    → (get_string_param r (codes "headers")).1 ≡ true
    → header_at h key (port_num r) (clear_header_counts key r rt)
      ≡ or_added
          (any (λ j. j == h) (split b',' (get_string_param r (codes "headers")).0))
          (header_at h key (port_num r) rt)
unfolding clear_header_counts clear_counts init_headers
clearing_named_keeps key h r rt named = ground (
  arith,
  named,
  eq_refl key,
  eq_refl (port_num r),
  tracking_data-update_port key key (port_num r) (port_num r)
      (λ d.
        if (get_string_param r (codes "headers")).1
        then init_headers (split b',' (get_string_param r (codes "headers")).0) d
        else clear_counts d)
      rt,
  get-add_headers (split b',' (get_string_param r (codes "headers")).0) h
      (tracking_data key (port_num r) rt).by_header,
)
