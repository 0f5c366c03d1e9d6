-- ===== src/Jobs/Kept.antt =====
-- Which results of a run are kept (jobsResults.go, storeJobResult), against all that were stored.
use goto.Prelude.{
  ℕ, zero, suc, ◌≤◌, ◌<◌, ◌⊎◌, inl, inr, ◌≡◌, refl, ap, sym, arith, Bool, true, false, Option, some,
  List, [], ◌∷◌, ◌++◌, length, length-append, leb, ltb, if◌then◌else◌, pos, ◌>>=◌, ◌∙◌,
}
use goto.Jobs.{JobResult, JobRunContext, Job}
use goto.Jobs.Results.{trim, result_of, store_job_result}

compare_cases : (a b : ℕ) → (a < b) ⊎ ((a ≡ b) ⊎ (b < a))
compare_cases a b = ground arith

module _ {A : Type 0} where
  -- The last n of a list, or all if it has not so many.
  abbrev pub last_of : ℕ → List A → List A
  last_of n [] = []
  last_of n (x ∷ xs) = if leb (suc (length xs)) n then x ∷ xs else last_of n xs

  last_of-all : (n : ℕ) (xs : List A) → length xs ≤ n → last_of n xs ≡ xs
  last_of-all n [] h = refl
  last_of-all n (x ∷ xs) h = ground arith

  abbrev shift : List A → List A
  shift [] = []
  shift (x ∷ xs) = xs

  abbrev fit : ℕ → List A → List A
  fit n xs = if ltb n (length xs) then shift xs else xs

  last_of-more : (n : ℕ) (x : A) (xs : List A) → n ≤ length xs → last_of n (x ∷ xs) ≡ last_of n xs
  last_of-more n x xs h = ground arith

  fit-short : (n : ℕ) (xs : List A) → length xs ≤ n → fit n xs ≡ xs
  fit-short n xs h = ground arith

  fit-long : (n : ℕ) (x : A) (xs : List A) → n ≤ length xs → fit n (x ∷ xs) ≡ xs
  fit-long n x xs h = ground arith

  length-snoc : (xs : List A) (y : A) → length (xs ++ (y ∷ [])) ≡ suc (length xs)
  length-snoc xs y = omega (arith, length-append xs (y ∷ []))

  fit-last_of :
      (n : ℕ) (xs : List A) (y : A) → fit n (last_of n xs ++ (y ∷ [])) ≡ last_of n (xs ++ (y ∷ []))
  fit-last_of zero [] y = refl
  fit-last_of (suc n) [] y = ground arith
  fit-last_of n (x ∷ xs) y =
      let size = length-snoc xs y in
      elim (compare_cases n (suc (length xs))) [
        | inl less ↦
            ap (λ zs. fit n (zs ++ (y ∷ []))) (last_of-more n x xs (omega arith))
            ∙ fit-last_of n xs y
            ∙ sym (last_of-more n x (xs ++ (y ∷ [])) (omega (arith, size)))
        | inr (inl same) ↦
            ap (λ zs. fit n (zs ++ (y ∷ []))) (last_of-all n (x ∷ xs) (omega arith))
            ∙ fit-long n x (xs ++ (y ∷ [])) (omega (arith, size))
            ∙ sym (last_of-all n (xs ++ (y ∷ [])) (omega (arith, size)))
            ∙ sym (last_of-more n x (xs ++ (y ∷ [])) (omega (arith, size)))
        | inr (inr more) ↦
            ap (λ zs. fit n (zs ++ (y ∷ []))) (last_of-all n (x ∷ xs) (omega arith))
            ∙ fit-short n (x ∷ (xs ++ (y ∷ []))) (omega (arith, size))
            ∙ sym (last_of-all n (x ∷ (xs ++ (y ∷ []))) (omega (arith, size)))
      ]

-- What a job stores, one after the other: the iteration, the data and whether it is the last.
abbrev pub Stored : Type 0 → Type 0
Stored D = ℕ × D × Bool

module _ {D : Type 0} where
  -- What is kept of results: the last n, or the first and the last n - 1 others.
  abbrev pub kept : Bool → ℕ → List (JobResult D) → List (JobResult D)
  kept keep_first k [] = []
  kept false k (x ∷ results) = last_of (suc k) (x ∷ results)
  kept true k (x ∷ results) = x ∷ last_of k results

  unfoldable pub store_all : Job → List (Stored D) → JobRunContext D → Option (JobRunContext D)
  store_all job [] run = some run
  store_all job ((iteration, x, last) ∷ rest) run =
      store_job_result job iteration x last run >>= store_all job rest

  -- The results of a run, none left out.
  unfoldable pub results_from : List (Stored D) → JobRunContext D → List (JobResult D)
  results_from [] run = []
  results_from ((iteration, x, last) ∷ rest) run =
      result_of run iteration x last
      ∷ results_from rest (record run { result_count = suc run.result_count })

  trim-kept :
      (keep_first : Bool) (k : ℕ) (results : List (JobResult D)) (y : JobResult D)
      → trim (pos (suc k)) keep_first (kept keep_first k results ++ (y ∷ []))
        ≡ some (kept keep_first k (results ++ (y ∷ [])))
  unfolding trim
  trim-kept false k [] y = ground arith
  trim-kept true k [] y = ground arith
  trim-kept false k (x ∷ results) y = ground (arith, fit-last_of (suc k) (x ∷ results) y)
  trim-kept true k (x ∷ results) y = ground (arith, fit-last_of k results y)

  results_from-ignores :
      (xs : List (Stored D)) (run : JobRunContext D) (results : List (JobResult D))
      → results_from xs (record run { job_results = results }) ≡ results_from xs run
  unfolding results_from
  results_from-ignores [] run results = refl
  results_from-ignores ((iteration, x, last) ∷ xs) run results =
      ap (λ rs. result_of run iteration x last ∷ rs)
        (results_from-ignores xs (record run { result_count = suc run.result_count }) results)

  append-snoc :
      (xs ys : List (JobResult D)) (y : JobResult D) → (xs ++ (y ∷ [])) ++ ys ≡ xs ++ (y ∷ ys)
  append-snoc [] ys y = refl
  append-snoc (x ∷ xs) ys y = ap (λ zs. x ∷ zs) (append-snoc xs ys y)

  append-nothing : (xs : List (JobResult D)) → xs ++ [] ≡ xs
  append-nothing [] = refl
  append-nothing (x ∷ xs) = ap (λ zs. x ∷ zs) (append-nothing xs)

  -- The storing does not panic, and leaves these results.
  abbrev pub Keeps : Option (JobRunContext D) → List (JobResult D) → Type 0
  Keeps o results = (run : JobRunContext D) × (o ≡ some run) × (run.job_results ≡ results)

  store_job_result-kept :
      (job : Job) (k iteration : ℕ) (x : D) (last : Bool) (run : JobRunContext D)
      (results : List (JobResult D))
      → job.keep_results ≡ pos (suc k)
      → run.job_results ≡ kept job.keep_first k results
      → store_job_result job iteration x last run
        ≡ some (record run {
          result_count = suc run.result_count;
          job_results = kept job.keep_first k (results ++ (result_of run iteration x last ∷ []));
        })
  unfolding store_job_result
  store_job_result-kept job k iteration x last run results keep e =
      rw keep (rw e (rw (trim-kept job.keep_first k results (result_of run iteration x last)) refl))

  store_all-kept :
      (job : Job) (k : ℕ) (xs : List (Stored D)) (run : JobRunContext D)
      (results : List (JobResult D))
      → job.keep_results ≡ pos (suc k)
      → run.job_results ≡ kept job.keep_first k results
      → Keeps (store_all job xs run) (kept job.keep_first k (results ++ results_from xs run))
  unfolding store_all results_from
  store_all-kept job k [] run results keep e =
      (run, refl, e ∙ ap (kept job.keep_first k) (sym (append-nothing results)))
  store_all-kept job k ((iteration, x, last) ∷ xs) run results keep e =
      let y = result_of run iteration x last in
      let next = record run {
        result_count = suc run.result_count;
        job_results = kept job.keep_first k (results ++ (y ∷ []));
      } in
      let (run', e', r) = store_all-kept job k xs next (results ++ (y ∷ [])) keep refl in
      (
        run',
        rw (store_job_result-kept job k iteration x last run results keep e) e',
        r
            ∙ ap (λ rs. kept job.keep_first k ((results ++ (y ∷ [])) ++ rs))
                (results_from-ignores xs (record run { result_count = suc run.result_count })
                  (kept job.keep_first k (results ++ (y ∷ []))))
            ∙ ap (kept job.keep_first k) (
                append-snoc results
                  (results_from xs (record run { result_count = suc run.result_count })) y),
      )

  -- For a job that keeps k + 1 results: storing any results in a run that has none does not panic, and
  -- leaves of all of them the last k + 1, or, if the first is to be kept, that one and the last k others.
  pub store_all-Keeps :
      (job : Job) (k : ℕ) (xs : List (Stored D)) (run : JobRunContext D)
      → job.keep_results ≡ pos (suc k)
      → run.job_results ≡ []
      → Keeps (store_all job xs run) (kept job.keep_first k (results_from xs run))
  store_all-Keeps job k xs run keep fresh = store_all-kept job k xs run [] keep fresh
