-- ===== src/Tests/Jobs.antt =====
-- The jobs at concrete runs.
use goto.Prelude.{
  ℕ, ◌≡◌, refl, Bool, true, false, some, none, [], ◌∷◌, Text, codes, pos, text_eq, nat_eq, ◌==◌,
}
use goto.Prelude.Dict.{get, put, delete}
use goto.Jobs.{
  Job, JobRunContext, JobManager, new_manager, new_run, add_job, number_run, store_run,
  execute_job_run,
}
use goto.Jobs.Kept.{Keeps, store_all, kept, results_from, store_all-Keeps}
use goto.Jobs.Starting.{Start, runs_at, numbered, run_of, started, two_starts}
use goto.Jobs.Executed.{IsExecuted, execute_job_run_ends}

abbrev example_job : Job
example_job = record {
  name = codes "j";
  auto = false;
  count = pos 3;
  cron = [];
  max_results = pos 20;
  keep_results = pos 2;
  keep_first = true;
  http_task = none;
  command_task = some record { cmd = codes "ls"; script = []; args = []; fillers = [] };
  object = 0;
}

abbrev example_run : JobRunContext ℕ
example_run = new_run 1 example_job none [] []

store_all-Keeps_example :
    Keeps
      (store_all example_job ((1, 7, false) ∷ (2, 8, false) ∷ (3, 9, true) ∷ []) example_run)
      (kept true 1 (results_from ((1, 7, false) ∷ (2, 8, false) ∷ (3, 9, true) ∷ []) example_run))
store_all-Keeps_example =
    store_all-Keeps example_job 1 ((1, 7, false) ∷ (2, 8, false) ∷ (3, 9, true) ∷ []) example_run
      refl refl

abbrev example_manager : JobManager ℕ
example_manager = (add_job example_job new_manager).0

abbrev start : Text → Start
start raw_input = record { args = none; markers = []; raw_input = raw_input }

two_starts_example :
    let first = (number_run example_job none [] (codes "a") example_manager).1 in
    let one = numbered example_job (start (codes "a")) example_manager in
    let second = (number_run example_job none [] (codes "b") one).1 in
    let both = numbered example_job (start (codes "b")) one in
    (get 1 (
        runs_at (codes "j") (
          started example_job
            (start (codes "b"))
            (started example_job (start (codes "a")) example_manager)))
      ≡ some (run_of example_job 1 (start (codes "a"))))
    × (get 1 (runs_at (codes "j") (store_run example_job second (store_run example_job first both)))
        ≡ none)
unfolding add_job get put delete text_eq
two_starts_example =
    two_starts example_job (start (codes "a")) (start (codes "b")) example_manager 1 refl

-- A task that stops its run in the second iteration.
abbrev stops_second : JobRunContext ℕ → ℕ → Bool → JobRunContext ℕ
stops_second run i last = record run { stopped = i == 2 }

execute_job_run_ends_example :
    IsExecuted stops_second 3 0
      (record example_run { job_args = some [] })
      (execute_job_run stops_second example_job example_run).1
      (execute_job_run stops_second example_job example_run).0
execute_job_run_ends_example = execute_job_run_ends stops_second example_job example_run
