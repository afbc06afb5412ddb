-- ===== src/Scheduler/Samples.antt =====
-- The scheduler's theorems at concrete jobs. The world counts the calls of the handlers and is its
-- own clock; the first two calls of the flaky handler raise.
use the_watcher.Prelude.{ℕ, ◌+◌, ◌≤◌, ◌≡◌, ◌≢◌, refl, String, true, false, ◌&&◌, ◌||◌, ◌⊎◌}
use the_watcher.Prelude.{Option, none, some, List, [], ◌∷◌, ◌++◌, ltb, if◌then◌else◌, length}
use the_watcher.Prelude.{string_is_eq, contains}
use the_watcher.Prelude.Dict
use the_watcher.Scheduler.{
  run_every, run_after, success, failure, Run, RunResult, JobSpec, State, due_jobs,
  run_with_retries, assertion_error, run_job, busy, acquire, try_run_exclusive,
}
use the_watcher.Scheduler.Due.{triggers, due_jobs_exact}
use the_watcher.Scheduler.Ledger.{Attempts, run_with_retries-Attempts}
use the_watcher.Scheduler.Locking.{outcome_of, try_run_exclusive_lem, run_job-locked}

abbrev flaky : ℕ → Option String × ℕ
flaky n = (if ltb n 2 then some "boom" else none, n + 1)

abbrev ingest : JobSpec ℕ
ingest = record {
  name = "ingest";
  handler = flaky;
  trigger = run_every 10;
  lock_key = some "channels";
  max_retries = 3;
  base_backoff = 1;
  on_failure = none;
}

abbrev sweep : JobSpec ℕ
sweep = record ingest {
  name = "sweep";
  trigger = run_after "ingested";
  lock_key = none;
  max_retries = 1;
}

abbrev start : State ℕ
start = record {
  registry = ("ingest", ingest) ∷ ("sweep", sweep) ∷ [];
  locked = [];
  requested = "sweep" ∷ [];
  jobs = [];
  runs = [];
  world = 0;
}

abbrev clock : ℕ → ℕ
clock n = n

abbrev sleep : ℕ → ℕ → ℕ
sleep d n = n

third_time_lucky :
    (run_with_retries clock sleep ingest start).0
    ≡ some (record { job_name = "ingest"; attempt = 3; outcome = success; error = none })
unfolding run_with_retries
third_time_lucky = refl

gives_up :
    (run_with_retries clock sleep sweep start).0
    ≡ some (record { job_name = "sweep"; attempt = 2; outcome = failure; error = some "boom" })
unfolding run_with_retries
gives_up = refl

due_jobs_exact_example :
    (contains (due_jobs 7 start).0 "sweep" ≡ (
      contains start.requested "sweep" && contains (Dict.keys start.registry) "sweep"
      || triggers (Dict.values start.registry) start.runs 7 "sweep"))
    × ((due_jobs 7 start).1 ≡ record start { requested = [] })
due_jobs_exact_example = due_jobs_exact 7 start "sweep"

run_with_retries-Attempts_example :
    (r : RunResult) × (rows : List Run) × ((run_with_retries clock sleep ingest start).0 ≡ some r)
    × ((run_with_retries clock sleep ingest start).1.runs ≡ start.runs ++ rows)
    × Attempts "ingest" r 1 rows
    × (length rows ≡ r.attempt)
    × (r.attempt ≤ 3 + 1)
run_with_retries-Attempts_example = run_with_retries-Attempts clock sleep ingest start

abbrev held : State ℕ
held = record start { locked = "channels" ∷ [] }

run_job-locked_example :
    ((run_job clock sleep "ingest" start).1.locked ≡ [])
    × ((run_job clock sleep "ingest" start).0 ≢ assertion_error)
run_job-locked_example = run_job-locked clock sleep "ingest" start

abbrev peek : State ℕ → Option ℕ × State ℕ
peek s = (some s.world, s)

try_run_exclusive_lem_example :
    ((contains start.locked "channels" ≡ true)
      × (try_run_exclusive "channels" peek start ≡ (busy, start)))
    ⊎ ((contains start.locked "channels" ≡ false)
        × (contains (acquire "channels" start).locked "channels" ≡ true)
        × ((try_run_exclusive "channels" peek start).0
            ≡ outcome_of (peek (acquire "channels" start)).0)
        × (contains (try_run_exclusive "channels" peek start).1.locked "channels" ≡ false)
        × ((other : String)
            → other ≢ "channels"
            → contains (try_run_exclusive "channels" peek start).1.locked other
              ≡ contains (peek (acquire "channels" start)).1.locked other))
try_run_exclusive_lem_example = try_run_exclusive_lem "channels" peek start
