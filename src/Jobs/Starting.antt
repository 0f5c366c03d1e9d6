-- ===== src/Jobs/Starting.antt =====
-- Runs that are started one after the other, and at the same time (jobsRun.go, initJobRun).
use goto.Prelude.{
  ℕ, suc, ◌≡◌, refl, arith, true, Option, some, List, nat_eq, ◌==◌, eq_refl, if◌then◌else◌, Text,
  text_eq,
}
use goto.Prelude.Dict.{Dict, get, put, get-put}
use goto.Jobs.{
  JobRunContext, Job, JobManager, or_none, has_task, new_run, job_run_counter, number_run,
  store_run, init_job_run,
}

-- What is held of a start: the job's arguments, the markers and the input.
pub record Start : Type 0 where
  pub args : Option (List Text)
  pub markers : Dict Text Text
  pub raw_input : Text

module _ {D : Type 0} where
  -- The runs kept of a job, by their numbers.
  abbrev pub runs_at : Text → JobManager D → Dict ℕ (JobRunContext D)
  runs_at name jm = or_none (get name jm.job_runs)

  abbrev pub numbered : Job → Start → JobManager D → JobManager D
  numbered job s jm = (number_run job s.args s.markers s.raw_input jm).0

  abbrev pub run_of : Job → ℕ → Start → JobRunContext D
  run_of job n s = new_run n job s.args s.markers s.raw_input

  abbrev pub started : Job → Start → JobManager D → JobManager D
  started job s jm = (init_job_run job s.args s.markers s.raw_input jm).0

  numbered_lem :
      (job : Job) (s : Start) (jm : JobManager D)
      → (job_run_counter job (numbered job s jm) ≡ suc (job_run_counter job jm))
        × ((number_run job s.args s.markers s.raw_input jm).1
            ≡ run_of job (suc (job_run_counter job jm)) s)
        × ((numbered job s jm).job_runs ≡ jm.job_runs)
  unfolding number_run
  numbered_lem job s jm = (
    ground (
      arith,
      eq_refl job.object,
      get-put job.object job.object (suc (job_run_counter job jm)) jm.job_run_counters,
    ),
    refl,
    refl,
  )

  store_run_lem :
      (job : Job) (run : JobRunContext D) (jm : JobManager D) (n : ℕ)
      → (get n (runs_at job.name (store_run job run jm))
          ≡ (if job_run_counter job jm == n then some run else get n (runs_at job.name jm)))
        × (job_run_counter job (store_run job run jm) ≡ job_run_counter job jm)
  unfolding store_run
  store_run_lem job run jm n =
      let runs = put (job_run_counter job jm) run (runs_at job.name jm) in
      (
        ground (
          arith,
          eq_refl job.name,
          get-put job.name job.name runs jm.job_runs,
          get-put (job_run_counter job jm) n run (runs_at job.name jm),
        ),
        refl,
      )

  started_lem :
      (job : Job) (s : Start) (jm : JobManager D) (n : ℕ)
      → has_task job ≡ true
      → (get n (runs_at job.name (started job s jm)) ≡ (
          if suc (job_run_counter job jm) == n
          then some (run_of job (suc (job_run_counter job jm)) s)
          else get n (runs_at job.name jm)))
        × (job_run_counter job (started job s jm) ≡ suc (job_run_counter job jm))
  unfolding init_job_run
  started_lem job s jm n task =
      let (c, r, same) = numbered_lem job s jm in
      let run = (number_run job s.args s.markers s.raw_input jm).1 in
      ground (arith, task, c, r, same, store_run_lem job run (numbered job s jm) n)

  -- Two starts of a job that has a task, in any state, with c its object's counter. One after the other,
  -- the first run is found under c + 1, the second under c + 2, each with that number, and under any other
  -- number what was there before. If both are numbered, and then the first is stored and then the second,
  -- the second is found under c + 2, and under any other number what was there before: the first run is
  -- lost.
  pub two_starts :
      (job : Job) (s t : Start) (jm : JobManager D) (n : ℕ)
      → has_task job ≡ true
      → let c = job_run_counter job jm in
        let both = numbered job t (numbered job s jm) in
        let first = (number_run job s.args s.markers s.raw_input jm).1 in
        let second = (number_run job t.args t.markers t.raw_input (numbered job s jm)).1 in
        (get n (runs_at job.name (started job t (started job s jm))) ≡ (
          if suc (suc c) == n
          then some (run_of job (suc (suc c)) t)
          else if suc c == n
          then some (run_of job (suc c) s)
          else get n (runs_at job.name jm)))
        × (get n (runs_at job.name (store_run job second (store_run job first both))) ≡ (
            if suc (suc c) == n
            then some (run_of job (suc (suc c)) t)
            else get n (runs_at job.name jm)))
  two_starts job s t jm n task =
      let one = numbered job s jm in
      let both = numbered job t one in
      let first = (number_run job s.args s.markers s.raw_input jm).1 in
      let second = (number_run job t.args t.markers t.raw_input one).1 in
      (
        ground (arith, started_lem job s jm n task, started_lem job t (started job s jm) n task),
        ground (
          arith,
          numbered_lem job s jm,
          numbered_lem job t one,
          store_run_lem job first both n,
          store_run_lem job second (store_run job first both) n,
        ),
      )
