-- ===== src/Scheduler/Locking.antt =====
-- The locks of the scheduler: who gets in, and that every way out gives the key back.
use the_watcher.Prelude.{◌*◌, ◌-◌, ◌^◌, ◌++◌}
use the_watcher.Prelude.{ℕ, zero, suc, ◌+◌, ◌≡◌, ◌≢◌, refl, ◌∙◌, String, true, false, not}
use the_watcher.Prelude.{Option, none, some, List, [], ◌∷◌, arith, ◌⊎◌, inl, inr}
use the_watcher.Prelude.{
  ◌==◌, string_is_eq, eq_iff, Option-cases, Bool-cases, contains, contains-keep_if, keep_if,
}
use the_watcher.Prelude.Dict
use the_watcher.Scheduler.{
  Run, RunResult, JobSpec, State, new_run, close_attempt, attempt_once, ensure_job, notify_failure,
  after_round, retry_loop, run_with_retries, acquire, release, run_locked, lock_of, waits,
  assertion_error, ran_of, run_job, Exclusive, busy, raised, done, try_run_exclusive,
}
use the_watcher.Scheduler.Ledger.{run_with_retries-Attempts}

module _ (key : String) where
  keep_absent : (ks : List String) → contains ks key ≡ false → keep_if (λ k. not (k == key)) ks ≡ ks
  unfolding keep_if
  keep_absent [] h = refl
  keep_absent (k ∷ ks) h = ground (arith, keep_absent ks)

pub outcome_of : {A : Type 0} → Option A → Exclusive A
outcome_of none = raised
outcome_of (some a) = done a

module _ {W : Type 0} where
  -- A key that was free is given back with nothing else changed.
  release-acquire :
      (key : String) (s : State W) (ks : List String)
      → ks ≡ key ∷ s.locked
      → contains s.locked key ≡ false
      → keep_if (λ k. not (k == key)) ks ≡ s.locked
  unfolding keep_if
  release-acquire key s ks e h = rw e (ground (arith, keep_absent key s.locked h, eq_iff key key))

  -- A busy key turns the caller away at once, the handler is not called and nothing changes. A
  -- free key runs the handler with the key held; what the handler returns or raises is the
  -- result, and afterwards the key is free, while all other keys are as the handler left them.
  pub try_run_exclusive_lem :
      {A : Type 0} (key : String) (handler : State W → Option A × State W) (s : State W)
      → ((contains s.locked key ≡ true) × (try_run_exclusive key handler s ≡ (busy, s)))
        ⊎ ((contains s.locked key ≡ false)
            × (contains (acquire key s).locked key ≡ true)
            × ((try_run_exclusive key handler s).0 ≡ outcome_of (handler (acquire key s)).0)
            × (contains (try_run_exclusive key handler s).1.locked key ≡ false)
            × ((other : String)
                → other ≢ key
                → contains (try_run_exclusive key handler s).1.locked other
                  ≡ contains (handler (acquire key s)).1.locked other))
  unfolding try_run_exclusive outcome_of
  try_run_exclusive_lem key handler s = elim (Bool-cases (contains s.locked key)) [
    | inl held ↦ inl (held, rw held)
    | inr free ↦ inr (
      free,
      ground (arith, eq_iff key key),
      ground arith,
      ground (
        arith,
        contains-keep_if (λ k. not (k == key)) (handler (acquire key s)).1.locked key,
        eq_iff key key,
      ),
      λ other differs. ground (
        arith,
        contains-keep_if (λ k. not (k == key)) (handler (acquire key s)).1.locked other,
        eq_iff other key,
      ),
    )
  ]

  -- Whoever tries the key again while a handler holds it is turned away: the nested handler is
  -- never called.
  pub try_run_exclusive_nested :
      {A : Type 0} (key : String) (inner : State W → Option A × State W) (s : State W)
      → contains s.locked key ≡ false
      → (try_run_exclusive key
          (λ t. let (r, t') = try_run_exclusive key inner t in (some r, t'))
          s).0
        ≡ done busy
  unfolding try_run_exclusive
  try_run_exclusive_nested key inner s free = ground (arith, eq_iff key key)

module _ {W : Type 0} (clock : W → ℕ) (sleep : ℕ → W → W) where
  locked-close_attempt :
      (row : Run) (error : Option String) (s : State W)
      → (close_attempt clock sleep row error s).locked ≡ s.locked
  unfolding close_attempt
  locked-close_attempt row none s = refl
  locked-close_attempt row (some e) s = refl

  locked-notify_failure :
      (spec : JobSpec W) (e : String) (s : State W)
      → (notify_failure clock sleep spec e s).locked ≡ s.locked
  unfolding notify_failure
  locked-notify_failure spec e s = ground arith

  locked-after_round :
      (spec : JobSpec W) (n : ℕ) (error : Option String) (s : State W)
      (again : State W → Option RunResult × State W)
      → ((t : State W) → (again t).1.locked ≡ t.locked)
      → (after_round clock sleep spec n error s again).1.locked ≡ s.locked
  unfolding after_round
  locked-after_round spec n none s again h = refl
  locked-after_round spec n (some e) s again h = ground (
    arith,
    h (record s { world = sleep (spec.base_backoff * 2 ^ (n - 1)) s.world }),
    locked-notify_failure spec e s,
  )

  locked-attempt_once :
      (spec : JobSpec W) (n : ℕ) (s : State W)
      → (attempt_once clock sleep spec n s).1.locked ≡ s.locked
  unfolding attempt_once
  locked-attempt_once spec n s =
      let row = new_run clock sleep spec.name n s in
      let (error, w) = spec.handler s.world in
      locked-close_attempt row error (record s { runs = s.runs ++ row ∷ []; world = w })

  locked-retry_loop :
      (spec : JobSpec W) (rounds n : ℕ) (s : State W)
      → (retry_loop clock sleep spec rounds n s).1.locked ≡ s.locked
  unfolding retry_loop
  locked-retry_loop spec zero n s = refl
  locked-retry_loop spec (suc rounds) n s =
      locked-after_round spec n (attempt_once clock sleep spec n s).0
        (attempt_once clock sleep spec n s).1 (retry_loop clock sleep spec rounds (n + 1))
        (locked-retry_loop spec rounds (n + 1))
      ∙ locked-attempt_once spec n s

  locked-run_with_retries :
      (spec : JobSpec W) (s : State W) → (run_with_retries clock sleep spec s).1.locked ≡ s.locked
  unfolding run_with_retries ensure_job
  locked-run_with_retries spec s =
      locked-retry_loop spec (spec.max_retries + 1) 1 (ensure_job clock sleep spec s)

  ran_of-ne-assertion_error :
      (o : Option RunResult) (r : RunResult) → o ≡ some r → ran_of o ≢ assertion_error
  unfolding ran_of
  ran_of-ne-assertion_error none r h e = cc
  ran_of-ne-assertion_error (some q) r h e = cc

  run_job_locked_key :
      (spec : JobSpec W) (key : String) (s : State W)
      → contains s.locked key ≡ false
      → (release key (run_with_retries clock sleep spec (acquire key s)).1).locked ≡ s.locked
  unfolding release acquire
  run_job_locked_key spec key s free =
      release-acquire key s _ (locked-run_with_retries spec (acquire key s)) free

  run_locked-locked :
      (spec : JobSpec W) (key : Option String) (s : State W)
      → ((run_locked clock sleep spec key s).1.locked ≡ s.locked)
        × ((run_locked clock sleep spec key s).0 ≢ assertion_error)
  unfolding run_locked
  run_locked-locked spec none s =
      let (r, rows, got, added, attempts, count, le) =
        run_with_retries-Attempts clock sleep spec s in
      (locked-run_with_retries spec s, ran_of-ne-assertion_error _ r got)
  run_locked-locked spec (some key) s = elim (Bool-cases (contains s.locked key)) [
    | inl held ↦ rw held (refl, λ e. cc)
    | inr free ↦
        let (r, rows, got, added, attempts, count, le) =
          run_with_retries-Attempts clock sleep spec (acquire key s) in
        rw free (run_job_locked_key spec key s free, ran_of-ne-assertion_error _ r got)
  ]

  -- However a call of `run_job` ends, it leaves the same keys locked as before, and it never ends
  -- in the assertion under the retry loop.
  pub run_job-locked :
      (name : String) (s : State W)
      → ((run_job clock sleep name s).1.locked ≡ s.locked)
        × ((run_job clock sleep name s).0 ≢ assertion_error)
  unfolding run_job
  run_job-locked name s = elim (Option-cases (Dict.lookup name s.registry)) [
    | inl missing ↦ rw (missing, run_job) (refl, λ e. cc)
    | inr (spec, found) ↦ rw (found, run_job) (run_locked-locked spec (lock_of spec.lock_key) s)
  ]

  -- A registered job whose key is held waits, and nothing changes.
  pub run_job-waits :
      (name key : String) (s : State W) (spec : JobSpec W)
      → Dict.lookup name s.registry ≡ some spec
      → spec.lock_key ≡ some key
      → key ≢ ""
      → contains s.locked key ≡ true
      → run_job clock sleep name s ≡ (waits, s)
  unfolding run_job run_locked lock_of
  run_job-waits name key s spec found locked named held = ground (arith, eq_iff key "")
