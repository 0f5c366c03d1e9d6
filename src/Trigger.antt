-- ===== src/Trigger.antt =====
-- pkg/server/response/trigger/trigger.go: the triggers of a port, and their lists by URI, header and status.
-- A pattern of a URI is the test that its regular expression is; the function that makes one of a URI
-- (util.GetURIRegexpAndRoute) is an argument, and so is invocation.ValidateSpec. The map of all ports'
-- triggers, which only the registration of pipe callbacks reads, is not modelled. none is a panic.
pub mod Deleting
pub mod Handlers
pub mod Slices
pub mod Window
pub mod Reachable
pub mod Conditions
pub mod Named
pub mod Firing
pub mod Removal
pub mod Matching
pub mod Invoking
use goto.Prelude.{ℕ, Bool, Option, none, some, List, [], ℤ, int_eq, Text, text_eq, Eq}
use goto.Prelude.Dict.{Dict}

pub record TriggerHttpTarget : Type 0 where
  pub method : Text
  pub url : Text
  pub headers : Dict Text Text
  pub body : Text
  pub send_id : Bool

pub record TriggerTarget : Type 0 where
  pub name : Text
  pub http_target : Option TriggerHttpTarget
  pub pipe : Bool
  pub pipe_callbacks : List Text
  pub enabled : Bool
  pub trigger_uris : List Text
  pub trigger_headers : Dict Text Text
  pub trigger_statuses : List ℤ
  pub start_from : ℤ
  pub stop_at : ℤ
  pub match_count : ℤ
  pub trigger_count : ℤ
  pub trigger_uri_regexps : Dict Text (Text → Bool)

pub record Trigger : Type 0 where
  pub targets : Dict Text TriggerTarget
  pub targets_by_uris : Dict Text (List Text)
  pub targets_by_headers : Dict Text (Dict Text (List Text))
  pub targets_by_status : Dict ℤ (List Text)
  pub trigger_results : Dict Text (Dict ℤ ℕ)

-- Trigger.init
abbrev pub new_trigger : Trigger
new_trigger = record {
  targets = [];
  targets_by_uris = [];
  targets_by_headers = [];
  targets_by_status = [];
  trigger_results = [];
}

abbrev pub or_nothing {ℓ} : {A : Type ℓ} → Option (List A) → List A
or_nothing none = []
or_nothing (some xs) = xs
