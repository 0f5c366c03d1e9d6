-- ===== src/Tracking/History.antt =====
-- The histories of the tracking: the requests that change it, as steps (tracking.go).
use goto.Prelude.{ℕ, arith, Option, none, some, List, [], ◌∷◌, int_eq, Text, text_eq}
use goto.Prelude.Dict.{Dict, get, put}
use goto.Tracking.{
  HeaderData, init_header_data, TrackingData, track_request, track_values, track_nonempty,
  update_uri, track_present, track_matched, or_none, values_of, init_uri, init_uri_and_headers,
  init_headers, remove_header, remove_all, clear_counts, track_call, track_request_of, track_hook,
  fresh_headers, map_headers,
}
use goto.Tracking.Counting.{
  AllValues, IsGood, put-AllValues, delete-AllValues, get-IsGood, IsCounted, AreCounted,
  track_request-IsCounted, track_requests-IsCounted, track_nonempty-IsCounted,
  map_headers-AreCounted, fresh_headers-AreCounted, add_headers-AreCounted,
}

-- In the counts of a port, no header has more values counted than occurrences, for a URI or for all.
abbrev pub IsSound : TrackingData → Type 0
IsSound d = AreCounted d.by_header × AllValues AreCounted d.by_uri_and_header

module _ (d : TrackingData) (sound : IsSound d) where
  pub init_uri-IsSound : (uri : Text) → IsSound (init_uri uri d)
  unfolding init_uri
  init_uri-IsSound uri = (sound.0, put-AllValues AreCounted uri [] d.by_uri_and_header tt sound.1)

  pub init_uri_and_headers-IsSound :
      (uri : Text) (hs : List Text) → IsSound (init_uri_and_headers uri hs d)
  unfolding init_uri_and_headers
  init_uri_and_headers-IsSound uri hs = (
    sound.0,
    put-AllValues AreCounted uri (fresh_headers hs []) d.by_uri_and_header
        (fresh_headers-AreCounted hs [] tt) sound.1,
  )

  pub init_headers-IsSound : (hs : List Text) → IsSound (init_headers hs d)
  unfolding init_headers
  init_headers-IsSound hs = (add_headers-AreCounted hs d.by_header sound.0, sound.1)

  pub remove_header-IsSound : (h : Text) → IsSound (remove_header h d)
  unfolding remove_header
  remove_header-IsSound h = (delete-AllValues IsCounted h d.by_header sound.0, sound.1)

  pub clear_counts-IsSound : IsSound (clear_counts d)
  unfolding clear_counts
  clear_counts-IsSound = (
    map_headers-AreCounted (λ h. init_header_data) d.by_header (λ h hd c. omega arith) sound.0,
    sound.1,
  )

pub remove_all-IsSound : (hs : List Text) (d : TrackingData) → IsSound d → IsSound (remove_all hs d)
unfolding remove_all
remove_all-IsSound [] d sound = sound
remove_all-IsSound (h ∷ hs) d sound =
    remove_all-IsSound hs (remove_header h d) (remove_header-IsSound d sound h)

-- What is written for an entry that is there keeps what all entries have.
module _ {V : Type 0} (P : V → Type 0) (g : V → V) (keeps : (v : V) → P v → P (g v)) where
  update_present-AllValues :
      (k : Text) (o : Option V) (m : Dict Text V)
      → IsGood P o
      → AllValues P m
      → AllValues P (elim o [ none ↦ m | some v ↦ put k (g v) m ])
  update_present-AllValues k none m p ps = ps
  update_present-AllValues k (some v) m p ps = put-AllValues P k (g v) m (keeps v p) ps

module _ (f : Text → HeaderData → HeaderData)
    (keeps : (h : Text) (hd : HeaderData) → IsCounted hd → IsCounted (f h hd)) where
  map_headers-IsSound :
      (uri : Text) (d : TrackingData) (by_uri : Dict Text ℕ)
      → IsSound d
      → IsSound record {
        by_header = map_headers f d.by_header;
        by_uri = by_uri;
        by_uri_and_header = update_uri (map_headers f) uri d.by_uri_and_header;
      }
  map_headers-IsSound uri d by_uri sound = (
    map_headers-AreCounted f d.by_header keeps sound.0,
    update_present-AllValues AreCounted (map_headers f) (λ m. map_headers-AreCounted f m keeps) uri
        (get uri d.by_uri_and_header) d.by_uri_and_header
        (get-IsGood AreCounted uri d.by_uri_and_header sound.1) sound.1,
  )

track_matched-AreCounted :
    (matched : Dict Text (List Text)) (m : Dict Text HeaderData)
    → AreCounted m
    → AreCounted (track_matched matched m)
unfolding track_matched
track_matched-AreCounted [] m ps = ps
track_matched-AreCounted ((h, []) ∷ rest) m ps = track_matched-AreCounted rest m ps
track_matched-AreCounted ((h, v ∷ vs) ∷ rest) m ps =
    track_matched-AreCounted rest (track_present h v m) (
      update_present-AllValues IsCounted (track_request v) (track_request-IsCounted v) h (get h m) m
        (get-IsGood IsCounted h m ps) ps)

or_none-AreCounted :
    (o : Option (Dict Text HeaderData)) → IsGood AreCounted o → AreCounted (or_none o)
or_none-AreCounted none p = tt
or_none-AreCounted (some m) p = p

module _ (d : TrackingData) (sound : IsSound d) (uri : Text) where
  pub track_call-IsSound : (headers : Dict Text (List Text)) → IsSound (track_call uri headers d)
  unfolding track_call
  track_call-IsSound headers =
      map_headers-IsSound (track_values headers)
        (λ h. track_requests-IsCounted (values_of (get h headers))) uri d
        (track_call uri headers d).by_uri sound

  pub track_request_of-IsSound :
      (header_get : Text → Text) → IsSound (track_request_of header_get uri d)
  unfolding track_request_of
  track_request_of-IsSound header_get =
      map_headers-IsSound (λ h. track_nonempty (header_get h))
        (λ h. track_nonempty-IsCounted (header_get h)) uri d
        (track_request_of header_get uri d).by_uri sound

  pub track_hook-IsSound : (matched : Dict Text (List Text)) → IsSound (track_hook uri matched d)
  unfolding track_hook
  track_hook-IsSound matched = (
    track_matched-AreCounted matched d.by_header sound.0,
    put-AllValues AreCounted uri (track_matched matched (or_none (get uri d.by_uri_and_header)))
        d.by_uri_and_header
        (track_matched-AreCounted matched (or_none (get uri d.by_uri_and_header)) (
          or_none-AreCounted (get uri d.by_uri_and_header)
            (get-IsGood AreCounted uri d.by_uri_and_header sound.1)))
        sound.1,
  )
