-- ===== src/Locker/Data.antt =====
-- DataLocker (locker.go): a locker with its flag. Its lock makes each operation one step.
use goto.Prelude.{ℕ, Bool, true, false, List, Text}
use goto.Locker.Tree.{
  Locker, empty, store_keys, remove_keys, read_keys, ReadResult, trim, locker_view,
}

pub record DataLocker : Type 0 where
  pub locker : Locker
  pub active : Bool

-- newDataLocker and init
abbrev pub new : DataLocker
new = record { locker = empty; active = true }

-- Store
abbrev pub store : ℕ → List Text → Text → DataLocker → DataLocker
store now keys v dl = record dl { locker = store_keys now 1 keys v (dl.locker) }

-- Remove
abbrev pub remove : List Text → DataLocker → DataLocker
remove keys dl = record dl { locker = remove_keys keys (dl.locker) }

-- Get
abbrev pub read : (Text → Bool) → List Text → Bool → ℕ → DataLocker → ReadResult
read is_object keys data' level dl = read_keys is_object keys data' level (dl.locker)

-- Trim
abbrev pub trimmed : ℕ → DataLocker → DataLocker
trimmed level dl = record dl { locker = trim level (dl.locker) }

-- The view of an instance's locker in PeerLocker.GetLockerView.
abbrev pub viewed : (Text → Bool) → Bool → DataLocker → DataLocker
viewed is_object data' dl = record dl { locker = locker_view is_object data' (dl.locker) }

-- Deactivate
abbrev pub deactivate : DataLocker → DataLocker
deactivate dl = record dl { active = false }
