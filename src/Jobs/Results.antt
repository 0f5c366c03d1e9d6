-- ===== src/Jobs/Results.antt =====
-- The results of a job's runs: which are kept, and which are shown (jobsResults.go; getJobsToRun of
-- jobsRun.go). none is a panic.
use goto.Prelude.{
  ℕ, suc, Bool, Option, none, some, List, [], ◌∷◌, ◌++◌, length, ltb, nat_eq, if◌then◌else◌, ℤ, pos,
  ltb_ℤ, Text, text_eq, ◌>>=◌,
}
use goto.Prelude.Dict.{Dict, get, put}
use goto.Params.Numbers.{itoa}
use goto.Jobs.{JobResult, JobRunContext, Job, JobManager, or_none}

unfoldable pub named_jobs : Dict Text Job → List Text → List Job
named_jobs jobs [] = []
named_jobs jobs (j ∷ names) = elim (get j jobs) [
  | none ↦ named_jobs jobs names
  | some job ↦ job ∷ named_jobs jobs names
]

unfoldable pub every_job : Dict Text Job → List Text × List Job
every_job [] = ([], [])
every_job ((k, job) ∷ jobs) = let (names, js) = every_job jobs in (job.name ∷ names, job ∷ js)

module _ {D : Type 0} where
  -- The second result goes: append(s[:1], s[2:]...) panics for one result.
  abbrev pub drop_second : List (JobResult D) → Option (List (JobResult D))
  drop_second (x ∷ y ∷ results) = some (x ∷ results)
  drop_second _ = none

  abbrev pub drop_first : List (JobResult D) → Option (List (JobResult D))
  drop_first [] = none
  drop_first (x ∷ results) = some results

  unfoldable pub trim : ℤ → Bool → List (JobResult D) → Option (List (JobResult D))
  trim keep_results keep_first results =
      if ltb_ℤ keep_results (pos (length results))
      then (if keep_first then drop_second results else drop_first results)
      else some results

  abbrev pub result_of : JobRunContext D → ℕ → D → Bool → JobResult D
  result_of run iteration x last = record {
    id =
        itoa (pos run.id)
        ++ (b'.' ∷ itoa (pos iteration))
        ++ (b'.' ∷ itoa (pos (suc run.result_count)));
    finished = run.finished;
    stopped = run.stopped;
    last = last;
    result_data = x;
  }

  unfoldable pub store_job_result : Job → ℕ → D → Bool → JobRunContext D → Option (JobRunContext D)
  store_job_result job iteration x last run =
      trim job.keep_results job.keep_first
        (run.job_results ++ (result_of run iteration x last ∷ []))
      >>= (λ results.
          some (record run { result_count = suc run.result_count; job_results = results }))

  abbrev pub later_run : JobRunContext D → ℕ → Option (JobRunContext D) → Option (JobRunContext D)
  later_run run id none = some run
  later_run run id (some latest) = if ltb latest.id id then some run else some latest

  unfoldable pub latest_run :
      Dict ℕ (JobRunContext D) → Option (JobRunContext D) → Option (JobRunContext D)
  latest_run [] latest = latest
  latest_run ((id, run) ∷ runs) latest = latest_run runs (later_run run id latest)

  abbrev results_of : Option (JobRunContext D) → List (JobResult D)
  results_of none = []
  results_of (some run) = run.job_results

  abbrev pub runs_of : Text → JobManager D → Dict ℕ (JobRunContext D)
  runs_of name jm = elim (get name jm.jobs) [
    | none ↦ []
    | some job ↦ or_none (get name jm.job_runs)
  ]

  unfoldable pub get_latest_job_results : Text → JobManager D → List (JobResult D)
  get_latest_job_results name jm = results_of (latest_run (runs_of name jm) none)

  unfoldable pub all_results :
      Dict ℕ (JobRunContext D) → Dict ℕ (List (JobResult D)) → Dict ℕ (List (JobResult D))
  all_results [] m = m
  all_results ((id, run) ∷ runs) m = all_results runs (put run.id run.job_results m)

  unfoldable pub get_job_results : Text → JobManager D → Dict ℕ (List (JobResult D))
  get_job_results name jm = all_results (runs_of name jm) []

  unfoldable pub get_jobs_to_run : List Text → JobManager D → List Text × List Job
  get_jobs_to_run [] jm = every_job jm.jobs
  get_jobs_to_run (j ∷ names) jm = (j ∷ names, named_jobs jm.jobs (j ∷ names))
