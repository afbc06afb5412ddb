-- ===== src/Scheduler.antt =====
-- The job scheduler: shared/scheduler/triggers.py and shared/scheduler/scheduler.py.
-- Times are microseconds; the clock, the sleep and the jobs' handlers act on a world `W` that the
-- scheduler does not own.
use Prim.Native.String.{compare}
use Prim.Native.Nat.{Ordering}
use the_watcher.Prelude.{
  ℕ, zero, suc, ◌+◌, ◌*◌, ◌-◌, ◌^◌, String, Bool, true, false, ◌&&◌, ◌||◌, not,
}
use the_watcher.Prelude.{Option, none, some, List, [], ◌∷◌, ◌++◌, leb, if◌then◌else◌}
use the_watcher.Prelude.{◌==◌, string_is_eq, contains, keep_if}
use the_watcher.Prelude.Dict
use the_watcher.Prelude.Dict.{Dict}
use the_watcher.Prelude.Table.{HasId, fresh_id, update_row}
pub mod Triggers
pub mod Due
pub mod Ledger
pub mod Locking
mod Samples

pub data Trigger : Type 0 where
  run_now : Trigger
  run_at : ℕ → Trigger
  run_every : ℕ → Trigger
  run_after : String → Trigger

-- An interval is at least zero, so `now - last >= interval` is `interval + last <= now`.
pub is_due : Trigger → Option ℕ → ℕ → Bool
is_due run_now none now = true
is_due run_now (some last) now = false
is_due (run_at when) none now = leb when now
is_due (run_at when) (some last) now = false
is_due (run_every interval) none now = true
is_due (run_every interval) (some last) now = leb (interval + last) now
is_due (run_after event) last now = false

pub data Outcome : Type 0 where
  success failure : Outcome

-- A row of the ledger: one for each attempt, with no outcome while it runs.
pub record Run : Type 0 where
  pub id : ℕ
  pub job_name : String
  pub attempt : ℕ
  pub started_at : ℕ
  pub finished_at : Option ℕ
  pub outcome : Option Outcome
  pub error : Option String

instance abbrev pub run_has_id : HasId Run
run_has_id = record { row_id = λ r. r.id }

pub record RunResult : Type 0 where
  pub job_name : String
  pub attempt : ℕ
  pub outcome : Outcome
  pub error : Option String

-- A handler ends, or raises the exception that the text describes.
abbrev pub Handler : Type 0 → Type 0
Handler W = W → Option String × W

pub record JobSpec (W : Type 0) : Type 0 where
  pub name : String
  pub handler : Handler W
  pub trigger : Trigger
  pub lock_key : Option String
  pub max_retries : ℕ
  pub base_backoff : ℕ
  pub on_failure : Option (String → String → Handler W)

pub record Job : Type 0 where
  pub lock_key : Option String
  pub max_retries : ℕ

-- The scheduler's fields, its two tables and the world.
pub record State (W : Type 0) : Type 0 where
  pub registry : Dict String (JobSpec W)
  pub locked : List String
  pub requested : List String
  pub jobs : Dict String Job
  pub runs : List Run
  pub world : W

-- `sorted` on a set of names: insertion by Python's order of texts, which is that of code points.
insert_sorted : String → List String → List String
insert_sorted s [] = s ∷ []
insert_sorted s (t ∷ ts) = elim (compare s t) [
  | Ordering.gt ↦ t ∷ insert_sorted s ts
  | _ ↦ s ∷ t ∷ ts
]

pub sorted : List String → List String
sorted [] = []
sorted (s ∷ ss) = insert_sorted s (sorted ss)

-- The latest `finished_at` of a successful run.
latest : Option ℕ → Option ℕ → Option ℕ
latest none b = b
latest (some a) none = some a
latest (some a) (some b) = if leb a b then some b else some a

pub succeeded : String → Run → Bool
succeeded name r =
    r.job_name == name
    && elim r.outcome [ none ↦ false | some o ↦ elim o [ success ↦ true | failure ↦ false ] ]

pub last_finished_at : String → List Run → Option ℕ
unfolding latest succeeded
last_finished_at name [] = none
last_finished_at name (r ∷ rows) =
    latest (if succeeded name r then r.finished_at else none) (last_finished_at name rows)

is_run_after : Trigger → Bool
is_run_after (run_after event) = true
is_run_after _ = false

module _ {W : Type 0} where
  pub register : JobSpec W → State W → State W
  register spec s = record s { registry = Dict.insert spec.name spec s.registry }

  pub unregister_all : State W → State W
  unregister_all s = record s { registry = []; requested = [] }

  -- `none` is the `KeyError`.
  pub request_run : String → State W → Option (State W)
  request_run name s =
      if contains (Dict.keys s.registry) name
      then some (record s {
        requested = if contains s.requested name then s.requested else name ∷ s.requested;
      })
      else none

  -- The loop over the registry: a job is added if its trigger says so and it is not there yet.
  due_loop : List (JobSpec W) → List Run → ℕ → List String → List String
  due_loop [] runs now due = due
  due_loop (spec ∷ specs) runs now due = due_loop specs runs now (
      if contains due spec.name
      then due
      else if is_run_after spec.trigger
      then due
      else if is_due spec.trigger (last_finished_at spec.name runs) now
      then due ++ spec.name ∷ []
      else due)

  pub due_jobs : ℕ → State W → List String × State W
  unfolding due_loop is_run_after
  due_jobs now s =
      let asked = keep_if (λ name. contains (Dict.keys s.registry) name) (sorted s.requested) in
      (due_loop (Dict.values s.registry) s.runs now asked, record s { requested = [] })

fires : String → Trigger → Bool
fires event trigger = elim trigger [ run_after e ↦ e == event | _ ↦ false ]

-- How a call of `run_job` ends.
pub data Ran : Type 0 where
  key_error waits assertion_error : Ran
  ran : RunResult → Ran

ran_of : Option RunResult → Ran
ran_of none = assertion_error
ran_of (some r) = ran r

-- `if spec.lock_key`
lock_of : Option String → Option String
lock_of none = none
lock_of (some key) = if key == "" then none else some key

module _ {W : Type 0} where
  pub acquire : String → State W → State W
  acquire key s = record s { locked = key ∷ s.locked }

  release : String → State W → State W
  release key s = record s { locked = keep_if (λ k. not (k == key)) s.locked }

module _ {W : Type 0} (clock : W → ℕ) (sleep : ℕ → W → W) where
  new_run : String → ℕ → State W → Run
  new_run name attempt s = record {
    id = fresh_id s.runs;
    job_name = name;
    attempt = attempt;
    started_at = clock s.world;
    finished_at = none;
    outcome = none;
    error = none;
  }

  finish_success : ℕ → State W → State W
  finish_success i s = record s {
    runs =
        update_row i (λ r. record r { outcome = some success; finished_at = some (clock s.world) })
          s.runs;
  }

  finish_failure : ℕ → String → State W → State W
  finish_failure i e s = record s {
    runs =
        update_row i
          (λ r. record r {
            outcome = some failure;
            error = some e;
            finished_at = some (clock s.world);
          })
          s.runs;
  }

  -- The outcome of the attempt goes to the row that was added before the handler was called.
  close_attempt : Run → Option String → State W → State W
  unfolding finish_success finish_failure
  close_attempt row none s = finish_success row.id s
  close_attempt row (some e) s = finish_failure row.id e s

  attempt_once : JobSpec W → ℕ → State W → Option String × State W
  unfolding new_run close_attempt
  attempt_once spec attempt s =
      let row = new_run spec.name attempt s in
      let (error, w) = spec.handler s.world in
      (error, close_attempt row error (record s { runs = s.runs ++ row ∷ []; world = w }))

  -- An exception of the hook is logged and goes no further.
  notify_failure : JobSpec W → String → State W → State W
  notify_failure spec error s = elim spec.on_failure [
    | none ↦ s
    | some hook ↦ record s { world = (hook spec.name error s.world).1 }
  ]

  result_of : JobSpec W → ℕ → Outcome → Option String → RunResult
  result_of spec attempt o error = record {
    job_name = spec.name;
    attempt = attempt;
    outcome = o;
    error = error;
  }

  -- What follows an attempt: the result, or a pause and `again` while retries are left.
  after_round :
      JobSpec W
      → ℕ
      → Option String
      → State W
      → (State W → Option RunResult × State W)
      → Option RunResult × State W
  unfolding notify_failure result_of
  after_round spec attempt none s again = (some (result_of spec attempt success none), s)
  after_round spec attempt (some e) s again =
      let rest =
        again (record s { world = sleep (spec.base_backoff * 2 ^ (attempt - 1)) s.world }) in
      if leb attempt spec.max_retries
      then rest
      else (some (result_of spec attempt failure (some e)), notify_failure spec e s)

  -- `for attempt in range(1, max_retries + 2)`, with the rounds that are left.
  -- No result is the `AssertionError` under the loop.
  retry_loop : JobSpec W → ℕ → ℕ → State W → Option RunResult × State W
  unfolding attempt_once after_round
  retry_loop spec zero attempt s = (none, s)
  retry_loop spec (suc rounds) attempt s =
      let (error, s') = attempt_once spec attempt s in
      after_round spec attempt error s' (retry_loop spec rounds (attempt + 1))

  ensure_job : JobSpec W → State W → State W
  ensure_job spec s = record s {
    jobs = elim (Dict.lookup spec.name s.jobs) [
      | some job ↦ s.jobs
      | none ↦
          s.jobs
          ++ (spec.name, record { lock_key = spec.lock_key; max_retries = spec.max_retries }) ∷ []
    ];
  }

  pub run_with_retries : JobSpec W → State W → Option RunResult × State W
  unfolding retry_loop ensure_job
  run_with_retries spec s = retry_loop spec (spec.max_retries + 1) 1 (ensure_job spec s)

  -- A job under its lock, if it has one. A job whose lock is held waits, and nothing has changed.
  run_locked : JobSpec W → Option String → State W → Ran × State W
  unfolding run_with_retries acquire release ran_of
  run_locked spec none s = let (r, s') = run_with_retries spec s in (ran_of r, s')
  run_locked spec (some key) s =
      if contains s.locked key
      then (waits, s)
      else let (r, s') = run_with_retries spec (acquire key s) in (ran_of r, release key s')

  pub run_job : String → State W → Ran × State W
  unfolding run_locked lock_of
  run_job name s = elim (Dict.lookup name s.registry) [
    | none ↦ (key_error, s)
    | some spec ↦ run_locked spec (lock_of spec.lock_key) s
  ]

  -- The jobs that an event fires, in the order of the registry, until one does not return.
  run_fired : List (JobSpec W) → String → State W → List RunResult × Option Ran × State W
  run_fired [] event s = ([], none, s)
  run_fired (spec ∷ specs) event s =
      let (first, s') = run_job spec.name s in
      let rest = run_fired specs event s' in
      let skip = run_fired specs event s in
      elim (fires event spec.trigger) [
        | false ↦ skip
        | true ↦ elim first [ ran r ↦ (r ∷ rest.0, rest.1, rest.2) | other ↦ ([], some other, s') ]
      ]

  pub run_after_event : String → State W → List RunResult × Option Ran × State W
  unfolding run_fired run_job fires
  run_after_event event s = run_fired (Dict.values s.registry) event s

-- `try_run_exclusive`: what the handler raises goes on to the caller, after the release.
pub data Exclusive (A : Type 0) : Type 0 where
  busy raised : Exclusive A
  done : A → Exclusive A

pub try_run_exclusive :
    {W A : Type 0} → String → (State W → Option A × State W) → State W → Exclusive A × State W
unfolding acquire release
try_run_exclusive key handler s =
    if contains s.locked key
    then (busy, s)
    else let (result, s') = handler (acquire key s) in
      (elim result [ none ↦ raised | some a ↦ done a ], release key s')
