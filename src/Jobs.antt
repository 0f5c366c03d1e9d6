-- ===== src/Jobs.antt =====
-- pkg/job: the jobs, their runs and the results kept of them (jobs.go, jobsRun.go, jobsResults.go, and
-- runCommandWithInput of commandJob.go). A job is a value with the number of its object, and the one field
-- of an object that is written, the run counter, stands with the manager, since callers may hold a job
-- that the manager has replaced. The tasks' own work, the channels, times, cron schedules and the copies of
-- results in the registry's locker are not modelled; strings.ReplaceAll is an argument.
pub mod Results
pub mod Kept
pub mod Executed
pub mod Starting
use goto.Prelude.{
  ℕ, zero, suc, Bool, true, false, ◌||◌, not, Option, none, some, List, [], ◌∷◌, nat_beq, nat_eq,
  if◌then◌else◌, ℤ, int_eq, pos_part, Text, text_eq, ◌==◌,
}
use goto.Prelude.Dict.{Dict, get, put, delete}

pub record CommandJobTask : Type 0 where
  pub cmd : Text
  pub script : Text
  pub args : List Text
  pub fillers : Dict Text ℕ

pub record JobResult (D : Type 0) : Type 0 where
  pub id : Text
  pub finished : Bool
  pub stopped : Bool
  pub last : Bool
  pub result_data : D

pub record JobRunContext (D : Type 0) : Type 0 where
  pub id : ℕ
  pub job_name : Text
  pub finished : Bool
  pub stopped : Bool
  pub result_count : ℕ
  pub job_args : Option (List Text)
  pub job_results : List (JobResult D)
  pub markers : Dict Text Text
  pub raw_input : Text

-- An HTTP task is known by its name, a job's object by a number of its own.
pub record Job : Type 0 where
  pub name : Text
  pub auto : Bool
  pub count : ℤ
  pub cron : Text
  pub max_results : ℤ
  pub keep_results : ℤ
  pub keep_first : Bool
  pub http_task : Option Text
  pub command_task : Option CommandJobTask
  pub object : ℕ

-- A watcher is known by its name. The counters are the field jobRunCounter of each job's object.
pub record JobManager (D : Type 0) : Type 0 where
  pub jobs : Dict Text Job
  pub job_runs : Dict Text (Dict ℕ (JobRunContext D))
  pub watchers : Dict Text (Dict Text Text)
  pub job_run_counters : Dict ℕ ℕ

abbrev pub or_none : {A : Type 0} → Option (List A) → List A
or_none none = []
or_none (some xs) = xs

abbrev put_unless_empty :
    Text → Dict Text Text → Dict Text (Dict Text Text) → Dict Text (Dict Text Text)
put_unless_empty job [] m = delete job m
put_unless_empty job (w ∷ ws) m = put job (w ∷ ws) m

abbrev pub has_task : Job → Bool
has_task job = elim job.command_task [
  | none ↦ elim job.http_task [ none ↦ false | some t ↦ true ]
  | some t ↦ true
]

-- The arguments, each with a filler replaced by its value.
unfoldable pub fill_args : (Text → Text → Text → Text) → Text → Text → List Text → List Text
fill_args replace_all f value [] = []
fill_args replace_all f value (a ∷ args) =
    replace_all a f value ∷ fill_args replace_all f value args

abbrev fill : (Text → Text → Text → Text) → Text → Option Text → List Text → List Text
fill replace_all f none args = args
fill replace_all f (some []) args = args
fill replace_all f (some (c ∷ value)) args = fill_args replace_all f (c ∷ value) args

unfoldable pub fill_all :
    (Text → Text → Text → Text) → Dict Text ℕ → Dict Text Text → List Text → List Text
fill_all replace_all [] markers args = args
fill_all replace_all ((f, n) ∷ fillers) markers args =
    fill_all replace_all fillers markers (fill replace_all f (get f markers) args)

abbrev pub or_task_args : Option CommandJobTask → Option (List Text) → Option (List Text)
or_task_args (some task) none = some task.args
or_task_args _ args = args

abbrev pub or_zero : Option ℕ → ℕ
or_zero none = 0
or_zero (some n) = n

module _ {D : Type 0} where
  abbrev pub new_manager : JobManager D
  new_manager = record { jobs = []; job_runs = []; watchers = []; job_run_counters = [] }

  unfoldable pub add_job_watcher : Text → Text → Text → JobManager D → JobManager D
  add_job_watcher job name watcher jm = record jm {
    watchers = put job (put name watcher (or_none (get job jm.watchers))) jm.watchers;
  }

  unfoldable pub remove_job_watcher : Text → Text → JobManager D → JobManager D
  remove_job_watcher job name jm = elim (get job jm.watchers) [
    | none ↦ jm
    | some ws ↦ record jm { watchers = put_unless_empty job (delete name ws) jm.watchers }
  ]

  unfoldable pub clear_job_watchers : Text → JobManager D → JobManager D
  clear_job_watchers job jm = record jm { watchers = delete job jm.watchers }

  -- AddJob: whether there was one, and whether the new one is run at once.
  unfoldable pub add_job : Job → JobManager D → JobManager D × Bool × Bool
  add_job job jm = (
    record jm { jobs = put job.name job jm.jobs; job_runs = delete job.name jm.job_runs },
    elim (get job.name jm.jobs) [ none ↦ false | some old ↦ true ],
    job.auto || not (job.cron == []),
  )

  unfoldable pub remove_jobs : List Text → JobManager D → JobManager D
  remove_jobs [] jm = jm
  remove_jobs (j ∷ js) jm = elim (get j jm.jobs) [
    | none ↦ remove_jobs js jm
    | some job ↦
        remove_jobs js (record jm { jobs = delete j jm.jobs; job_runs = delete j jm.job_runs })
  ]

  abbrev pub new_run : ℕ → Job → Option (List Text) → Dict Text Text → Text → JobRunContext D
  new_run number job args markers raw_input = record {
    id = number;
    job_name = job.name;
    finished = false;
    stopped = false;
    result_count = 0;
    job_args = args;
    job_results = [];
    markers = markers;
    raw_input = raw_input;
  }

  abbrev pub job_run_counter : Job → JobManager D → ℕ
  job_run_counter job jm = or_zero (get job.object jm.job_run_counters)

  -- The first half of initJobRun, under the job's lock: the counter is raised, the run numbered by it.
  unfoldable pub number_run :
      Job
      → Option (List Text)
      → Dict Text Text
      → Text
      → JobManager D
      → JobManager D × JobRunContext D
  number_run job args markers raw_input jm =
      let number = suc (job_run_counter job jm) in
      (
        record jm { job_run_counters = put job.object number jm.job_run_counters },
        new_run number job args markers raw_input,
      )

  -- The second half, under the manager's lock: the run is put under the job's counter as it then is.
  unfoldable pub store_run : Job → JobRunContext D → JobManager D → JobManager D
  store_run job run jm = record jm {
    job_runs =
        put job.name (put (job_run_counter job jm) run (or_none (get job.name jm.job_runs)))
          jm.job_runs;
  }

  -- initJobRun with nothing between its halves: the run, if the job has a task.
  unfoldable pub init_job_run :
      Job
      → Option (List Text)
      → Dict Text Text
      → Text
      → JobManager D
      → JobManager D × Option (JobRunContext D)
  init_job_run job args markers raw_input jm =
      let (numbered, run) = number_run job args markers raw_input jm in
      if has_task job then (store_run job run numbered, some run) else (jm, none)

  unfoldable pub run_command_with_input :
      (Text → Text → Text → Text)
      → Job
      → CommandJobTask
      → Dict Text Text
      → Text
      → JobManager D
      → JobManager D × Option (JobRunContext D)
  run_command_with_input replace_all job task markers raw_input =
      init_job_run job (some (fill_all replace_all task.fillers markers task.args)) markers
        raw_input

  -- The loop of executeJobRun: `i` iterations are done, `k` are to do; a task's run is an argument, which
  -- gets the iteration and whether it is the last.
  unfoldable pub execute_from :
      (JobRunContext D → ℕ → Bool → JobRunContext D) → ℕ → ℕ → JobRunContext D → JobRunContext D × ℕ
  execute_from run_task zero i run = (run, i)
  execute_from run_task (suc k) i run =
      let next = run_task run (suc i) (nat_beq k 0) in
      elim (next.stopped || next.finished) [
        | true ↦ (next, suc i)
        | false ↦ execute_from run_task k (suc i) next
      ]

  -- executeJobRun: the run, and how many iterations it had.
  unfoldable pub execute_job_run :
      (JobRunContext D → ℕ → Bool → JobRunContext D) → Job → JobRunContext D → JobRunContext D × ℕ
  execute_job_run run_task job run =
      execute_from run_task (pos_part job.count) 0
        (record run { job_args = or_task_args job.command_task run.job_args })
