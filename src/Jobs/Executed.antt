-- ===== src/Jobs/Executed.antt =====
-- How far a job's iterations go (jobsRun.go, executeJobRun).
use goto.Prelude.{
  ℕ, zero, suc, ◌+◌, ◌≤◌, ◌<◌, ◌≡◌, refl, subst, arith, Bool, true, false, ◌||◌, nat_beq, pos_part,
  Bool-cases, inl, inr,
}
use goto.Jobs.{JobRunContext, Job, execute_from, execute_job_run, or_task_args}

module _ {D : Type 0} (run_task : JobRunContext D → ℕ → Bool → JobRunContext D) where
  abbrev pub has_ended : JobRunContext D → Bool
  has_ended run = run.stopped || run.finished

  -- The run after n of k iterations, of which the last is told so, whether or not it ends before.
  abbrev pub after : ℕ → ℕ → ℕ → JobRunContext D → JobRunContext D
  after k zero i run = run
  after zero (suc n) i run = run
  after (suc k) (suc n) i run = after k n (suc i) (run_task run (suc i) (nat_beq k 0))

  -- n of k iterations are done: the run has ended with the last of them, or there are no more, and with
  -- none before.
  abbrev pub IsExecuted : ℕ → ℕ → JobRunContext D → ℕ → JobRunContext D → Type 0
  IsExecuted k i run n end =
      (n ≤ k)
      × (end ≡ after k n i run)
      × (n < k → has_ended end ≡ true)
      × ((m : ℕ) → suc m < n → has_ended (after k (suc m) i run) ≡ false)

  abbrev Executed : ℕ → ℕ → JobRunContext D → Type 0
  Executed k i run =
      (n : ℕ) × ((execute_from run_task k i run).1 ≡ i + n)
      × IsExecuted k i run n (execute_from run_task k i run).0

  step_ended :
      (k i : ℕ) (run : JobRunContext D)
      → has_ended (run_task run (suc i) (nat_beq k 0)) ≡ true
      → execute_from run_task (suc k) i run ≡ (run_task run (suc i) (nat_beq k 0), suc i)
  unfolding execute_from
  step_ended k i run e = ground (arith, e)

  step_running :
      (k i : ℕ) (run : JobRunContext D)
      → has_ended (run_task run (suc i) (nat_beq k 0)) ≡ false
      → execute_from run_task (suc k) i run
        ≡ execute_from run_task k (suc i) (run_task run (suc i) (nat_beq k 0))
  unfolding execute_from
  step_running k i run e = ground (arith, e)

  none_before :
      (k i n : ℕ) (run : JobRunContext D)
      → has_ended (run_task run (suc i) (nat_beq k 0)) ≡ false
      → ((m : ℕ)
          → suc m < n
          → has_ended (after k (suc m) (suc i) (run_task run (suc i) (nat_beq k 0))) ≡ false)
      → (m : ℕ) → suc m < suc n
      → has_ended (after (suc k) (suc m) i run) ≡ false
  none_before k i n run e before zero h = e
  none_before k i n run e before (suc m) h = before m (omega arith)

  execute_from-IsExecuted : (k i : ℕ) (run : JobRunContext D) → Executed k i run
  unfolding execute_from
  execute_from-IsExecuted zero i run = (
    0,
    omega arith,
    (omega arith, refl, (λ h. absurd (omega arith)), λ m h. absurd (omega arith)),
  )
  execute_from-IsExecuted (suc k) i run =
      elim (Bool-cases (has_ended (run_task run (suc i) (nat_beq k 0))))
        as (λ c. Executed (suc k) i run) [
          | inl e ↦
              rw (step_ended k i run e)
                (1, omega arith, (omega arith, refl, (λ h. e), λ m h. absurd (omega arith)))
          | inr e ↦
              let next = run_task run (suc i) (nat_beq k 0) in
              let (n, count, (h, same, ends, before)) = execute_from-IsExecuted k (suc i) next in
              rw (step_running k i run e) (
                suc n,
                omega (arith, count),
                (
                  omega (arith, h),
                  same,
                  (λ less. ends (omega (arith, less))),
                  none_before k i n run e before,
                ),
              )
        ]

  -- The iterations of a job's run end: at most `count` are done, the run is what these leave, it has ended,
  -- stopped or finished, with the last of them if they are fewer than `count`, and with none before.
  pub execute_job_run_ends :
      (job : Job) (run : JobRunContext D)
      → IsExecuted
          (pos_part job.count)
          0
          (record run { job_args = or_task_args job.command_task run.job_args })
          (execute_job_run run_task job run).1
          (execute_job_run run_task job run).0
  unfolding execute_job_run
  execute_job_run_ends job run =
      let start = record run { job_args = or_task_args job.command_task run.job_args } in
      let (n, count, done) = execute_from-IsExecuted (pos_part job.count) 0 start in
      subst
        (λ m.
          IsExecuted (pos_part job.count) 0 start m
            (execute_from run_task (pos_part job.count) 0 start).0)
        (omega (arith, count)) done
