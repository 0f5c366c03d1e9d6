-- ===== src/Filter/Removal.antt =====
-- Entries that are added and removed again (filter.go).
use goto.Prelude.{
  ◌≡◌, ◌≢◌, arith, false, Option, none, Text, if◌then◌else◌, ◌==◌, text_eq, eq_iff, to_lower,
}
use goto.Prelude.Dict.{get, get-delete}
use goto.Filter.{RegexpLib, RequestFilter, remove_uri}
use goto.Filter.Patterns.{is_negative}

module _ (re : RegexpLib) where
  open re use {Regexp, compile}

  -- The entry that a URI has among the updates, positive or negative.
  abbrev pub entry_of : RequestFilter re → Text → Option Regexp
  entry_of rf uri = if is_negative uri then get uri rf.not_uri_updates else get uri rf.uri_updates

  -- Removing a URI takes away its entry if the URI has no capital letter, and no other entry.
  pub remove_uri_lower :
      (rf : RequestFilter re) (uri other : Text)
      → rf.locked ≡ false
      → to_lower uri ≡ uri
      → entry_of (remove_uri re rf uri).0 other ≡ (if uri == other then none else entry_of rf other)
  unfolding remove_uri
  remove_uri_lower rf uri other l e =
      rw (l, e)
        (ground
          (arith, get-delete uri other rf.uri_updates, get-delete uri other rf.not_uri_updates))

  -- The entries are kept under the URI as it was given and looked for in lower case: removing a URI
  -- with a capital letter leaves its entry.
  remove_uri_capital :
      (rf : RequestFilter re) (uri : Text)
      → to_lower uri ≢ uri
      → entry_of (remove_uri re rf uri).0 uri ≡ entry_of rf uri
  unfolding remove_uri
  remove_uri_capital rf uri n = ground (
    arith,
    get-delete (to_lower uri) uri rf.uri_updates,
    get-delete (to_lower uri) uri rf.not_uri_updates,
    eq_iff (to_lower uri) uri,
  )
