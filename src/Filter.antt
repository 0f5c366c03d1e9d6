-- ===== src/Filter.antt =====
-- pkg/server/request/filter/filter.go: the request filters `ignore` and `bypass`.
-- Go's package regexp is a parameter. A handler that panics while it holds the filter's lock never
-- unlocks it, so the lock is part of the state. Counts are not bounded.
pub mod Patterns
pub mod Entries
pub mod Promised
pub mod Kept
pub mod Serving
pub mod History
pub mod Invariant
pub mod Matching
pub mod Removal
pub mod Lockout
pub mod Chain
use goto.Prelude.{
  ℕ, suc, ◌+◌, Bool, true, false, ◌&&◌, ◌||◌, not, Option, none, some, List, [], ◌∷◌, ◌++◌, any,
  nat_beq, if◌then◌else◌, ℤ, pos, is_positive, Text, codes, text_eq, ◌==◌, to_lower, has_prefix,
}
use goto.Prelude.Dict.{Dict, get, put, delete, values}
pub use goto.Params.Regexp.{RegexpLib}
use goto.Filter.Patterns.{uri_pattern, header_pattern, is_negative, match_uri_text}
use goto.Params.Mux.{Request, get_string_param_value, get_status_param}

pub record RequestFilter (re : RegexpLib) : Type 0 where
  pub uris : Dict Text re.Regexp
  pub not_uris : Dict Text re.Regexp
  pub headers : Dict Text (Dict Text re.Regexp)
  pub uri_updates : Dict Text re.Regexp
  pub not_uri_updates : Dict Text re.Regexp
  pub header_updates : Dict Text (Dict Text re.Regexp)
  pub status : ℤ
  pub filtered_count : ℕ
  pub pending_updates : Bool
  pub has_uris : Bool
  pub has_headers : Bool
  pub locked : Bool

pub data Answer : Type 0 where
  done : Answer
  bad_request : Answer
  panicked : Answer
  blocked : Answer

abbrev pub is_empty {ℓ} : {A : Type ℓ} → List A → Bool
is_empty [] = true
is_empty (x ∷ xs) = false

module _ (re : RegexpLib) where
  open re use {Regexp, compile, match_string}

  abbrev pub new_request_filter : RequestFilter re
  new_request_filter = record {
    uris = [];
    not_uris = [];
    headers = [];
    uri_updates = [];
    not_uri_updates = [];
    header_updates = [];
    status = pos 200;
    filtered_count = 0;
    pending_updates = false;
    has_uris = false;
    has_headers = false;
    locked = false;
  }

  -- Between Lock and Unlock; with the lock held by nobody who will free it, the caller waits forever.
  abbrev pub locking : RequestFilter re → RequestFilter re × Answer → RequestFilter re × Answer
  locking rf result = if rf.locked then (rf, blocked) else result

  unfoldable pub reset_count : RequestFilter re → RequestFilter re × Answer
  reset_count rf = locking rf (record rf { filtered_count = 0 }, done)

  abbrev pub enter_uri : RequestFilter re → Text → Regexp → RequestFilter re
  enter_uri rf uri m = record rf {
    uri_updates = if is_negative uri then rf.uri_updates else put uri m rf.uri_updates;
    not_uri_updates = if is_negative uri then put uri m rf.not_uri_updates else rf.not_uri_updates;
    pending_updates = true;
    has_uris = true;
  }

  -- MustCompile runs before the lock is taken.
  unfoldable pub add_uri : RequestFilter re → Text → RequestFilter re × Answer
  add_uri rf uri = elim (compile (uri_pattern (match_uri_text uri))) [
    | none ↦ (rf, panicked)
    | some m ↦ locking rf (enter_uri rf uri m, done)
  ]

  abbrev pub or_empty : Option (Dict Text Regexp) → Dict Text Regexp
  or_empty none = []
  or_empty (some m) = m

  abbrev pub enter_header :
      RequestFilter re → Text → Text → Option Regexp → RequestFilter re × Answer
  enter_header rf header value none = (
    record rf {
      header_updates = put header (or_empty (get header rf.header_updates)) rf.header_updates;
      locked = true;
    },
    panicked,
  )
  enter_header rf header value (some m) = (
    record rf {
      header_updates =
          put header (put value m (or_empty (get header rf.header_updates))) rf.header_updates;
      pending_updates = true;
      has_headers = true;
    },
    done,
  )

  -- MustCompile runs while the lock is held, and after the header's own map has been made.
  unfoldable pub add_header : RequestFilter re → Text → Text → RequestFilter re × Answer
  add_header rf header value =
      locking rf (enter_header rf (to_lower header) value (compile (header_pattern value)))

  abbrev pub add_either : RequestFilter re → Text → Text → Text → RequestFilter re × Answer
  add_either rf (c ∷ uri) header value = add_uri rf (c ∷ uri)
  add_either rf [] (c ∷ header) value = add_header rf (c ∷ header) value
  add_either rf [] [] value = (rf, bad_request)

  unfoldable pub add_filter_header_or_uri : Request → RequestFilter re → RequestFilter re × Answer
  add_filter_header_or_uri r rf =
      add_either rf (get_string_param_value r (codes "uri"))
        (get_string_param_value r (codes "header")) (get_string_param_value r (codes "value"))

  unfoldable pub remove_uri : RequestFilter re → Text → RequestFilter re × Answer
  remove_uri rf uri = locking rf (
    record rf {
      uri_updates = delete (to_lower uri) rf.uri_updates;
      not_uri_updates = delete (to_lower uri) rf.not_uri_updates;
      pending_updates = true;
    },
    done,
  )

  abbrev pub drop_value : Text → Text → Dict Text (Dict Text Regexp) → Dict Text (Dict Text Regexp)
  drop_value header value updates = elim (get header updates) [
    | none ↦ updates
    | some m ↦
        if is_empty (delete value m)
        then delete header updates
        else put header (delete value m) updates
  ]

  unfoldable pub remove_header : RequestFilter re → Text → Text → RequestFilter re × Answer
  remove_header rf header value =
      let updates = drop_value (to_lower header) (to_lower value) rf.header_updates in
      locking rf (
        record rf {
          header_updates = updates;
          pending_updates = true;
          has_headers = not (is_empty updates);
        },
        done,
      )

  abbrev pub remove_either : RequestFilter re → Text → Text → Text → RequestFilter re × Answer
  remove_either rf (c ∷ uri) header value = remove_uri rf (c ∷ uri)
  remove_either rf [] (c ∷ header) value = remove_header rf (c ∷ header) value
  remove_either rf [] [] value = (rf, bad_request)

  unfoldable pub remove_ignore_header_or_uri :
      Request → RequestFilter re → RequestFilter re × Answer
  remove_ignore_header_or_uri r rf =
      remove_either rf (get_string_param_value r (codes "uri"))
        (get_string_param_value r (codes "header")) (get_string_param_value r (codes "value"))

  abbrev pub assign_status : RequestFilter re → List ℤ → RequestFilter re × Answer
  assign_status rf [] = (rf, panicked)
  assign_status rf (c ∷ cs) = (record rf { status = c }, done)

  -- With no status the handler reports the current one.
  unfoldable pub set_or_get_ignore_status : Request → RequestFilter re → RequestFilter re × Answer
  set_or_get_ignore_status r rf =
      let p = get_status_param r in if p.present then assign_status rf p.statuses else (rf, done)

  unfoldable pub clear : RequestFilter re → RequestFilter re × Answer
  clear rf = locking rf (
    record rf {
      uri_updates = [];
      not_uri_updates = [];
      header_updates = [];
      filtered_count = 0;
      pending_updates = true;
    },
    done,
  )
