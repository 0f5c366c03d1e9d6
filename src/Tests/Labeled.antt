-- ===== src/Tests/Labeled.antt =====
-- The labeled lockers after concrete calls.
use goto.Prelude.{
  ◌≡◌, ◌≢◌, refl, true, false, ◌&&◌, none, some, List, [], ◌∷◌, if◌then◌else◌, Text, codes, text_eq,
  ◌==◌, equal_fold, to_lower, nat_eq,
}
use goto.Prelude.Dict.{get, put}
use goto.Locker.Tree.{text}
use goto.Locker.Tree.Storing.{data_at, keys_eq}
use goto.Locker.Labels.{labels_eq, split, is_prefix}
use goto.Locker.Labeled.{
  LabeledLockers, new_labeled_lockers, default_label, open_locker, create_or_get_locker, descend,
  get_or_make, make_locker, link, with_node, child_at, says_current,
}
use goto.Locker.Labeled.Linked.{labeled_data}
use goto.Locker.Labeled.Opening.{is_known}
use goto.Locker.Labeled.Handlers.{
  open_labeled_locker, close_or_clear_labeled_locker, store_in_labeled_locker, done, panicked,
  bad_request,
}
use goto.Locker.Labeled.Promised.{
  Call, opens, stores, clears, removes, run_call, run_calls, all_promised, has_name,
}
use goto.Locker.Labeled.Refined.{run_calls-promised}
use goto.Locker.Labeled.Walking.{walk_labels, all_lockers-walk_labels}
use goto.Locker.Labeled.Stored.{data_at-store_in_labeled_locker}
use goto.Locker.Labeled.Current.{open_labeled_locker-current, closing_above_strands}
use goto.Locker.Labeled.Default.{closing_answers}

abbrev a_label : Text
a_label = codes "a"

abbrev b_label : Text
b_label = codes "b"

abbrev opened : List Call
opened = opens 2 (codes "a,b") ∷ []

abbrev opened_state : LabeledLockers
opened_state = run_calls opened (new_labeled_lockers 1)

abbrev several_calls : List Call
several_calls =
    opens 2 (codes "a,b")
    ∷ stores 3 (codes "a,c") (codes "k" ∷ []) (codes "v")
    ∷ clears 4 (codes "a,b") true
    ∷ removes 5 (codes "d") (codes "k" ∷ [])
    ∷ []

run_calls-promised_example :
    is_known (a_label ∷ b_label ∷ []) (run_calls several_calls (new_labeled_lockers 1))
    ≡ all_promised several_calls (λ q. q == default_label ∷ []) (a_label ∷ b_label ∷ [])
run_calls-promised_example = run_calls-promised 1 several_calls (a_label ∷ b_label ∷ [])

all_lockers-walk_labels_example :
    get (a_label ∷ b_label ∷ []) opened_state.all_lockers
    ≡ walk_labels (a_label ∷ b_label ∷ []) none opened_state
all_lockers-walk_labels_example = all_lockers-walk_labels 1 opened a_label (b_label ∷ [])

-- The label of one part.
split_a : split a_label ≡ a_label ∷ []
unfolding split
split_a = refl

-- What `a,b` opened leaves.
opened_current : opened_state.current_locker ≡ some 2
unfolding run_calls run_call open_labeled_locker open_locker create_or_get_locker descend
    get_or_make make_locker link with_node child_at new_labeled_lockers get put labels_eq text_eq
    split
opened_current = refl

opened_entry : get (a_label ∷ b_label ∷ []) opened_state.all_lockers ≡ some 2
unfolding run_calls run_call open_labeled_locker open_locker create_or_get_locker descend
    get_or_make make_locker link with_node child_at new_labeled_lockers get put labels_eq text_eq
    split
opened_entry = refl

opened_above : get (split a_label) opened_state.all_lockers ≡ some 1
unfolding run_calls run_call open_labeled_locker open_locker create_or_get_locker descend
    get_or_make make_locker link with_node child_at new_labeled_lockers get put labels_eq text_eq
    split
opened_above = refl

not_the_default : equal_fold a_label default_label ≡ false
unfolding equal_fold to_lower
not_the_default = refl

a_above : is_prefix (split a_label) (a_label ∷ b_label ∷ []) ≡ true
unfolding split is_prefix text_eq
a_above = refl

a_is_not_ab : split a_label ≢ a_label ∷ b_label ∷ []
unfolding split
a_is_not_ab = λ e. cc

closing_above_strands_example :
    ((close_or_clear_labeled_locker 9 a_label true opened_state).0.current_locker ≡ some 2)
    × ((q : List Text)
        → get q (close_or_clear_labeled_locker 9 a_label true opened_state).0.all_lockers ≢ some 2)
closing_above_strands_example =
    closing_above_strands 1 9 opened 97 [] (a_label ∷ b_label ∷ []) 1 2 not_the_default
      opened_current opened_entry opened_above a_above a_is_not_ab

a_has_name : has_name (split a_label) ≡ true
unfolding split
a_has_name = refl

a_not_current : says_current (split a_label) ≡ false
unfolding split says_current equal_fold to_lower
a_not_current = refl

data_at-store_in_labeled_locker_example :
    ((store_in_labeled_locker 9 a_label (codes "k" ∷ []) (codes "v") opened_state).1 ≡ done)
    × (data_at (codes "k" ∷ []) (
          labeled_data
            (a_label ∷ [])
            (store_in_labeled_locker 9 a_label (codes "k" ∷ []) (codes "v") opened_state).0)
        ≡ (if split a_label == a_label ∷ [] && keys_eq (codes "k" ∷ []) (codes "k" ∷ [])
            then text (codes "v")
            else data_at (codes "k" ∷ []) (labeled_data (a_label ∷ []) opened_state)))
data_at-store_in_labeled_locker_example =
    data_at-store_in_labeled_locker 1 9 opened 97 [] (codes "k") [] (codes "v") (a_label ∷ [])
      (codes "k" ∷ []) a_has_name a_not_current

closing_answers_example :
    (close_or_clear_labeled_locker 9 a_label true opened_state).1
    ≡ (if true && equal_fold a_label default_label then bad_request else done)
closing_answers_example = closing_answers 1 9 opened a_label true

open_labeled_locker-current_example :
    ((open_labeled_locker 9 (codes ",b") opened_state).1
      ≡ (if has_name (split (codes ",b")) then done else panicked))
    × ((open_labeled_locker 9 (codes ",b") opened_state).0.current_locker ≡ (
        if has_name (split (codes ",b"))
        then get
            (split (codes ",b"))
            (open_labeled_locker 9 (codes ",b") opened_state).0.all_lockers
        else none))
    × ((open_labeled_locker 9 (codes ",b") opened_state).0.current_locker ≡ none
        → has_name (split (codes ",b")) ≡ false)
open_labeled_locker-current_example = open_labeled_locker-current 1 9 opened 44 (codes "b")
