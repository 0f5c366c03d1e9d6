-- ===== src/Locker/Labeled/Refined.antt =====
-- The lockers that calls of the routes leave (locker.go, LabeledLockers, with registry/lockerApi.go).
use goto.Prelude.{ℕ, ◌≡◌, subst, fun_ext, List, [], ◌∷◌, Text, text_eq, ◌==◌, nat_eq}
use goto.Locker.Labels.{labels_eq}
use goto.Locker.Labeled.{LabeledLockers, new_labeled_lockers, default_label}
use goto.Locker.Labeled.Entries.{IsSound}
use goto.Locker.Labeled.Opening.{is_known}
use goto.Locker.Labeled.Created.{Outcome}
use goto.Locker.Labeled.Promised.{Known, Call, run_call, run_calls, promised, all_promised}
use goto.Locker.Labeled.Fresh.{new-Outcome}
use goto.Locker.Labeled.Routes.{run_call-Outcome}

run_calls-Outcome :
    (cs : List Call) (k : Known) (s : LabeledLockers)
    → Outcome k s
    → Outcome (all_promised cs k) (run_calls cs s)
unfolding run_calls all_promised
run_calls-Outcome [] k s out = out
run_calls-Outcome (c ∷ cs) k s out = run_calls-Outcome cs (promised c k) (run_call c s) (
    subst (λ j. Outcome (promised c j) (run_call c s)) (fun_ext out.knows)
      (run_call-Outcome c s out.sound))

-- After any calls, the labels that have a locker in allLockers are exactly those that the calls promise:
-- opening a label, and storing or removing data under it, gives one to it and to all above it; closing takes
-- it from the label and all below it, clearing from all below it; closing or clearing without a label
-- takes it from all but the default one; and closing the default one does nothing.
pub run_calls-promised :
    (now : ℕ) (cs : List Call) (p : List Text)
    → is_known p (run_calls cs (new_labeled_lockers now))
      ≡ all_promised cs (λ q. q == default_label ∷ []) p
run_calls-promised now cs p =
    (run_calls-Outcome cs (λ q. q == default_label ∷ []) (new_labeled_lockers now)
        (new-Outcome now)).knows
      p

pub run_calls-IsSound :
    (now : ℕ) (cs : List Call) → IsSound (run_calls cs (new_labeled_lockers now))
run_calls-IsSound now cs =
    (run_calls-Outcome cs (λ q. q == default_label ∷ []) (new_labeled_lockers now)
      (new-Outcome now)).sound
