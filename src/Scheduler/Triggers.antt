-- ===== src/Scheduler/Triggers.antt =====
-- When a trigger is due (triggers.py).
use the_watcher.Prelude.{ℕ, ◌+◌, ◌≤◌, ◌≡◌, refl, true, ◌↔◌, Option, none, some, arith}
use the_watcher.Scheduler.{Trigger, run_now, run_at, run_every, run_after, is_due}

-- A trigger that is due stays due as time passes, as long as nothing has finished since.
pub is_due_mono :
    (t : Trigger) (last : Option ℕ) (now later : ℕ)
    → now ≤ later
    → is_due t last now ≡ true
    → is_due t last later ≡ true
unfolding is_due
is_due_mono run_now none now later le h = refl
is_due_mono run_now (some l) now later le h = h
is_due_mono (run_at when) none now later le h = ground arith
is_due_mono (run_at when) (some l) now later le h = h
is_due_mono (run_every i) none now later le h = refl
is_due_mono (run_every i) (some l) now later le h = ground arith
is_due_mono (run_after e) last now later le h = h

-- After a run that finished at `last`, a trigger is due again exactly if it is an interval and the
-- whole interval has passed.
pub is_due_again :
    (t : Trigger) (last now : ℕ)
    → (is_due t (some last) now ≡ true) ↔ ((i : ℕ) × (t ≡ run_every i) × (i + last ≤ now))
unfolding is_due
is_due_again run_now last now = (λ h. cc, λ (i, e, l). cc)
is_due_again (run_at w) last now = (λ h. cc, λ (i, e, l). cc)
is_due_again (run_every i) last now = (λ h. (i, refl, ground arith), λ (j, e, l). ground arith)
is_due_again (run_after e) last now = (λ h. cc, λ (i, e, l). cc)
