-- ===== src/Scheduler/Ledger.antt =====
-- What a run with retries leaves in the ledger, and that it always has a result.
use the_watcher.Prelude.{ℕ, zero, suc, ◌+◌, ◌*◌, ◌-◌, ◌^◌, ◌≤◌, ◌≡◌, refl, ◌∙◌, String}
use the_watcher.Prelude.{Option, none, some, List, [], ◌∷◌, ◌++◌, arith, leb, inl, inr}
use the_watcher.Prelude.{Bool-cases, length, ap}
use mathlib.Core.List.{append_assoc}
use mathlib.Core.Path.{subst}
use native.Mathlib.Numerals.{add-one}
use the_watcher.Prelude.{◌≢◌, sym}
use the_watcher.Prelude.Table.{update_row-append, Below-fresh_id}
use the_watcher.Scheduler.{
  success, failure, Run, run_has_id, RunResult, JobSpec, State, new_run, close_attempt,
  attempt_once, notify_failure, after_round, result_of, retry_loop, ensure_job, run_with_retries,
}

-- The rows of one call: failed attempts, numbered from `n`, and a last one with the result.
pub data Attempts (name : String) (r : RunResult) : ℕ → List Run → Type 0 where
  last :
      (n : ℕ) (row : Run) (t : ℕ)
      → row.job_name ≡ name
      → row.attempt ≡ n
      → row.finished_at ≡ some t
      → row.outcome ≡ some r.outcome
      → row.error ≡ r.error
      → r.attempt ≡ n
      → Attempts name r n (row ∷ [])
  retried :
      (n : ℕ) (row : Run) (t : ℕ) (rows : List Run)
      → row.job_name ≡ name
      → row.attempt ≡ n
      → row.finished_at ≡ some t
      → row.outcome ≡ some failure
      → Attempts name r (suc n) rows
      → Attempts name r n (row ∷ rows)

module _ {W : Type 0} (clock : W → ℕ) (sleep : ℕ → W → W) (spec : JobSpec W) where
  -- The row of an attempt once it is closed, and the state that the attempt leaves.
  closed_row : ℕ → State W → Option String → W → Run
  closed_row n s none w = record (new_run clock sleep spec.name n s) {
    outcome = some success;
    finished_at = some (clock w);
  }
  closed_row n s (some e) w = record (new_run clock sleep spec.name n s) {
    outcome = some failure;
    error = some e;
    finished_at = some (clock w);
  }

  after_attempt : ℕ → State W → Option String → W → State W
  unfolding closed_row
  after_attempt n s error w = record s { runs = s.runs ++ closed_row n s error w ∷ []; world = w }

  close_attempt_lem :
      (n : ℕ) (s : State W) (error : Option String) (w : W)
      → let row = new_run clock sleep spec.name n s in
        close_attempt clock sleep row error (record s { runs = s.runs ++ row ∷ []; world = w })
        ≡ after_attempt n s error w
  unfolding close_attempt after_attempt new_run
  close_attempt_lem n s none w =
      ap (λ (rows : List Run). record s { runs = rows; world = w })
        (update_row-append _ _ s.runs _ (Below-fresh_id s.runs) refl)
  close_attempt_lem n s (some e) w =
      ap (λ (rows : List Run). record s { runs = rows; world = w })
        (update_row-append _ _ s.runs _ (Below-fresh_id s.runs) refl)

  attempt_once_lem :
      (n : ℕ) (s : State W)
      → let (error, w) = spec.handler s.world in
        attempt_once clock sleep spec n s ≡ (error, after_attempt n s error w)
  unfolding attempt_once
  attempt_once_lem n s = ap (λ t. ((spec.handler s.world).0, t)) (close_attempt_lem n s _ _)

  -- A result, the rows that the loop adds, and what these are.
  abbrev Logged : ℕ → State W → Option RunResult × State W → Type 0
  Logged n s out =
      (r : RunResult) × (rows : List Run) × (out.0 ≡ some r)
      × (out.1.runs ≡ s.runs ++ rows)
      × Attempts spec.name r n rows
      × (length rows + n ≡ r.attempt + 1)
      × (r.attempt ≤ spec.max_retries + 1)

  -- The state that a failed attempt leaves once the pause is over.
  paused : ℕ → State W → Option String → W → State W
  unfolding after_attempt
  paused n s error w = record (after_attempt n s error w) {
    world = sleep (spec.base_backoff * 2 ^ (n - 1)) w;
  }

  Logged-ends :
      (n : ℕ) (s : State W) (w : W)
      → n ≤ spec.max_retries + 1
      → Logged n s (some (result_of clock sleep spec n success none), after_attempt n s none w)
  unfolding result_of after_attempt new_run
  Logged-ends n s w le = (
    result_of clock sleep spec n success none,
    closed_row n s none w ∷ [],
    refl,
    refl,
    last n _ (clock w) refl refl refl refl refl refl,
    omega arith,
    le,
  )

  Logged-fails :
      (n : ℕ) (s t : State W) (e : String) (w : W)
      → n ≤ spec.max_retries + 1
      → t.runs ≡ (after_attempt n s (some e) w).runs
      → Logged n s (some (result_of clock sleep spec n failure (some e)), t)
  unfolding result_of after_attempt new_run
  Logged-fails n s t e w le kept = (
    result_of clock sleep spec n failure (some e),
    closed_row n s (some e) w ∷ [],
    refl,
    kept,
    last n _ (clock w) refl refl refl refl refl refl,
    omega arith,
    le,
  )

  Logged-again :
      (n : ℕ) (s : State W) (e : String) (w : W) (out : Option RunResult × State W)
      → Logged (suc n) (paused n s (some e) w) out
      → Logged n s out
  unfolding paused new_run
  Logged-again n s e w out (r, rows, got, added, attempts, count, le) = (
    r,
    closed_row n s (some e) w ∷ rows,
    got,
    added ∙ append_assoc s.runs (closed_row n s (some e) w ∷ []) rows,
    retried n _ (clock w) rows refl refl refl refl attempts,
    omega arith,
    le,
  )

  runs-notify_failure :
      (e : String) (s : State W) → (notify_failure clock sleep spec e s).runs ≡ s.runs
  unfolding notify_failure
  runs-notify_failure e s = ground arith

  after_round-Logged :
      (n rounds : ℕ) (s : State W) (error : Option String) (w : W)
      (again : State W → Option RunResult × State W)
      → n + rounds ≡ spec.max_retries + 1
      → (rounds ≢ 0 → (t : State W) → Logged (suc n) t (again t))
      → Logged n s (after_round clock sleep spec n error (after_attempt n s error w) again)
  unfolding after_round paused after_attempt
  after_round-Logged n rounds s none w again h ih = Logged-ends n s w (omega arith)
  after_round-Logged n rounds s (some e) w again h ih = elim (Bool-cases (leb n spec.max_retries)) [
    | inl more ↦ rw more (
        Logged-again n s e w (again (paused n s (some e) w))
          (ih (ground arith) (paused n s (some e) w)))
    | inr over ↦ rw over (
        Logged-fails n s (notify_failure clock sleep spec e (after_attempt n s (some e) w)) e w
          (omega arith) (runs-notify_failure e (after_attempt n s (some e) w)))
  ]

  retry_loop-Logged :
      (rounds n : ℕ) (s : State W)
      → n + rounds ≡ spec.max_retries + 1
      → Logged n s (retry_loop clock sleep spec (suc rounds) n s)
  unfolding retry_loop
  retry_loop-Logged zero n s h =
      subst
        (λ (p : Option String × State W).
          Logged n s
            (after_round clock sleep spec n p.0 p.1 (retry_loop clock sleep spec zero (n + 1))))
        (sym (attempt_once_lem n s)) (after_round-Logged n zero s _ _ _ h (λ e. absurd (e refl)))
  retry_loop-Logged (suc rounds) n s h =
      subst
        (λ (p : Option String × State W). Logged n s (
          after_round clock sleep spec n p.0 p.1
            (retry_loop clock sleep spec (suc rounds) (n + 1))))
        (sym (attempt_once_lem n s))
        (after_round-Logged n (suc rounds) s _ _ _ h
          (λ e t. rw add-one (retry_loop-Logged rounds (suc n) t (omega arith))))

  -- A run with retries always returns a result, never the assertion under its loop. It adds to the
  -- ledger one finished row for each attempt, numbered from 1, all failures but the last, which
  -- has the outcome and the error of the result; there are at most `max_retries + 1` of them, and
  -- no older row changes.
  pub run_with_retries-Attempts :
      (s : State W)
      → (r : RunResult) × (rows : List Run) × ((run_with_retries clock sleep spec s).0 ≡ some r)
        × ((run_with_retries clock sleep spec s).1.runs ≡ s.runs ++ rows)
        × Attempts spec.name r 1 rows
        × (length rows ≡ r.attempt)
        × (r.attempt ≤ spec.max_retries + 1)
  unfolding run_with_retries
  run_with_retries-Attempts s = rw add-one (
      let (r, rows, got, added, attempts, count, le) =
        retry_loop-Logged spec.max_retries 1 (ensure_job clock sleep spec s) (omega arith) in
      (r, rows, got, added, attempts, omega (arith, count), omega (arith, le)))
