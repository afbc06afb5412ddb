-- ===== src/Scheduler/Due.antt =====
-- Which jobs `due_jobs` names, and that it names each once.
use the_watcher.Prelude.{ℕ, ◌≡◌, refl, ◌∙◌, String, Bool, true, false, ◌&&◌, ◌||◌, Option, some}
use the_watcher.Prelude.{List, [], ◌∷◌, ◌++◌, arith, ◌==◌, string_is_eq, eq_iff}
use the_watcher.Prelude.{contains, contains-append, contains-keep_if, has, keep_if}
use the_watcher.Prelude.{Distinct, Distinct-append_one, Distinct-keep_if}
use the_watcher.Prelude.Dict
use the_watcher.Scheduler.{
  Trigger, run_now, run_at, run_every, run_after, is_due, JobSpec, Run, State,
}
use the_watcher.Scheduler.{
  sorted, insert_sorted, last_finished_at, is_run_after, due_loop, due_jobs,
}
use the_watcher.Scheduler.{request_run}

contains-insert_sorted :
    (s t : String) (ss : List String) → contains (insert_sorted s ss) t ≡ (s == t || contains ss t)
unfolding insert_sorted
contains-insert_sorted s t [] = refl
contains-insert_sorted s t (u ∷ ss) = ground (arith, contains-insert_sorted s t ss)

pub contains-sorted : (ss : List String) (t : String) → contains (sorted ss) t ≡ contains ss t
unfolding sorted
contains-sorted [] t = refl
contains-sorted (s ∷ ss) t =
    ground (arith, contains-insert_sorted s t (sorted ss), contains-sorted ss t)

Distinct-insert_sorted :
    (s : String) (ss : List String)
    → Distinct ss
    → contains ss s ≡ false
    → Distinct (insert_sorted s ss)
unfolding insert_sorted
Distinct-insert_sorted s [] d h = (refl, tt)
Distinct-insert_sorted s (u ∷ ss) d h =
    ground (
      arith,
      contains-insert_sorted s u ss,
      Distinct-insert_sorted s ss d.1,
      eq_iff u s,
      eq_iff s u,
    )

Distinct-sorted : (ss : List String) → Distinct ss → Distinct (sorted ss)
unfolding sorted
Distinct-sorted [] d = tt
Distinct-sorted (s ∷ ss) d =
    Distinct-insert_sorted s (sorted ss) (Distinct-sorted ss d.1) (contains-sorted ss s ∙ d.0)

run_after_never :
    (t : Trigger) (last : Option ℕ) (now : ℕ) → is_run_after t ≡ true → is_due t last now ≡ false
unfolding is_run_after is_due
run_after_never run_now last now h = cc
run_after_never (run_at w) last now h = cc
run_after_never (run_every i) last now h = cc
run_after_never (run_after e) last now h = refl

module _ {W : Type 0} where
  -- A registered job with that name whose own trigger is due.
  abbrev pub triggers : List (JobSpec W) → List Run → ℕ → String → Bool
  triggers specs runs now name =
      has (λ spec. spec.name == name && is_due spec.trigger (last_finished_at spec.name runs) now)
        specs

  contains-due_loop :
      (specs : List (JobSpec W)) (runs : List Run) (now : ℕ) (due : List String) (name : String)
      → contains (due_loop specs runs now due) name
        ≡ (contains due name || triggers specs runs now name)
  unfolding due_loop
  contains-due_loop [] runs now due name = ground arith
  contains-due_loop (spec ∷ specs) runs now due name = ground (
    arith,
    contains-due_loop specs runs now due name,
    contains-due_loop specs runs now (due ++ spec.name ∷ []) name,
    contains-append due (spec.name ∷ []) name,
    eq_iff spec.name name,
    run_after_never spec.trigger (last_finished_at spec.name runs) now,
  )

  Distinct-due_loop :
      (specs : List (JobSpec W)) (runs : List Run) (now : ℕ) (due : List String)
      → Distinct due
      → Distinct (due_loop specs runs now due)
  unfolding due_loop
  Distinct-due_loop [] runs now due d = d
  Distinct-due_loop (spec ∷ specs) runs now due d = ground (
    arith,
    Distinct-due_loop specs runs now due d,
    Distinct-due_loop specs runs now (due ++ spec.name ∷ []),
    Distinct-append_one due spec.name d,
  )

  -- A name is due exactly if it was requested and is registered, or if a registered job of that
  -- name has a trigger that is due. The requests are used up, and nothing else changes.
  pub due_jobs_exact :
      (now : ℕ) (s : State W) (name : String)
      → (contains (due_jobs now s).0 name ≡ (
          contains s.requested name && contains (Dict.keys s.registry) name
          || triggers (Dict.values s.registry) s.runs now name))
        × ((due_jobs now s).1 ≡ record s { requested = [] })
  unfolding due_jobs
  due_jobs_exact now s name = (
    ground (
      arith,
      contains-due_loop (Dict.values s.registry) s.runs now
          (keep_if (λ n. contains (Dict.keys s.registry) n) (sorted s.requested)) name,
      contains-keep_if (λ n. contains (Dict.keys s.registry) n) (sorted s.requested) name,
      contains-sorted s.requested name,
    ),
    refl,
  )

  -- No name is due twice.
  pub due_jobs-Distinct :
      (now : ℕ) (s : State W) → Distinct s.requested → Distinct (due_jobs now s).0
  unfolding due_jobs
  due_jobs-Distinct now s d =
      Distinct-due_loop (Dict.values s.registry) s.runs now _
        (Distinct-keep_if (contains (Dict.keys s.registry)) _ (Distinct-sorted s.requested d))

  -- A request keeps the requests distinct, whichever way it goes.
  pub request_run-Distinct :
      (name : String) (s t : State W)
      → request_run name s ≡ some t
      → Distinct s.requested
      → Distinct t.requested
  unfolding request_run
  request_run-Distinct name s t h d = ground arith
