-- ===== src/Ingest/Batch.antt =====
-- When a batch is cut, and of what: the cuts of agents/wa_agent/ingestion.py.
use the_watcher.Prelude.{
  ℕ, ◌+◌, ◌≤◌, min, max, ◌≡◌, ◌≢◌, ◌⊎◌, ◌↔◌, inl, inr, refl, ap, sym, zero, suc, Bool-cases, Bool,
  true, false, ◌&&◌, ◌||◌,
}
use the_watcher.Prelude.{
  String, Option, none, some, List, [], ◌∷◌, ◌++◌, map, arith, if◌then◌else◌, leb, ltb, length,
  take, All,
}
use the_watcher.Prelude.{
  contains, contains-append, Distinct, Distinct-append_one, eq_iff, ◌==◌, ◌∙◌, string_is_eq,
}
use the_watcher.Text.{Text}
use the_watcher.Gateway.Db.{Db}
use the_watcher.Gateway.Buffer.{pending_messages}
use the_watcher.Ingest.Messages.{BufferedMessage, Settings, buffered}

pub record BatchResult : Type 0 where
  pub channel : Text
  pub message_count : ℕ
  pub threads_updated : List String
  pub threads_created : List String
  pub threads_revived : List String
  pub chatter_count : ℕ
  pub model_calls : ℕ
  pub unassigned : ℕ

-- `mine.extend(slug for slug in theirs if slug not in mine)`: the list grows while it is read.
unfoldable pub extend_new : List String → List String → List String
extend_new mine [] = mine
extend_new mine (slug ∷ theirs) =
    let seen = extend_new mine theirs in
    let added = extend_new (mine ++ slug ∷ []) theirs in if contains mine slug then seen else added

unfoldable pub absorb : BatchResult → BatchResult → BatchResult
absorb mine other = record mine {
  message_count = mine.message_count + other.message_count;
  chatter_count = mine.chatter_count + other.chatter_count;
  model_calls = mine.model_calls + other.model_calls;
  unassigned = mine.unassigned + other.unassigned;
  threads_created = extend_new mine.threads_created other.threads_created;
  threads_updated = extend_new mine.threads_updated other.threads_updated;
  threads_revived = extend_new mine.threads_revived other.threads_revived;
}

unfoldable pub first_time : BufferedMessage → List BufferedMessage → ℕ
first_time m [] = m.received_at
first_time m (n ∷ ms) = min m.received_at (first_time n ms)

unfoldable pub last_time : BufferedMessage → List BufferedMessage → ℕ
last_time m [] = m.received_at
last_time m (n ∷ ms) = max m.received_at (last_time n ms)

-- A difference of times reaches a bound when the bound after the earlier one has come.
unfoldable pub is_batch_ready : Settings → ℕ → List BufferedMessage → Bool
is_batch_ready settings now [] = false
is_batch_ready settings now (m ∷ ms) =
    (leb settings.batch_n (length (m ∷ ms)) || leb (first_time m ms + settings.batch_t) now)
    && leb (last_time m ms + settings.batch_quiet) now

unfoldable pub cap : Settings → List BufferedMessage → List BufferedMessage
cap settings messages =
    if ltb settings.batch_n (length messages) then take settings.batch_n messages else messages

unfoldable pub pending : Text → Db → List BufferedMessage × Db
pending channel db = let read = pending_messages channel db in (map buffered read.0, read.1)

unfoldable pub if_ready : Settings → ℕ → List BufferedMessage → Option (List BufferedMessage)
if_ready settings now messages =
    if is_batch_ready settings now messages then some (cap settings messages) else none

unfoldable pub cut_scheduled_batch : Settings → ℕ → Text → Db → Option (List BufferedMessage) × Db
cut_scheduled_batch settings now channel db =
    let read = pending channel db in (if_ready settings now read.0, read.1)

unfoldable pub if_any : Settings → List BufferedMessage → Option (List BufferedMessage)
if_any settings [] = none
if_any settings (m ∷ ms) = some (cap settings (m ∷ ms))

unfoldable pub cut_forced_batch : Settings → Text → Db → Option (List BufferedMessage) × Db
cut_forced_batch settings channel db =
    let read = pending channel db in (if_any settings read.0, read.1)

pub cut_batch : Settings → ℕ → Text → Bool → Db → Option (List BufferedMessage) × Db
cut_batch settings now channel true db = cut_forced_batch settings channel db
cut_batch settings now channel false db = cut_scheduled_batch settings now channel db

-- Every message, or some message, is before a time.
abbrev pub Older : ℕ → ℕ → BufferedMessage → Type 0
Older now wait m = m.received_at + wait ≤ now

abbrev pub SomeOlder : ℕ → ℕ → List BufferedMessage → Type 0
SomeOlder now wait [] = ⊥
SomeOlder now wait (m ∷ ms) = Older now wait m ⊎ SomeOlder now wait ms

first_time_lem :
    (now wait : ℕ) (m : BufferedMessage) (ms : List BufferedMessage)
    → (first_time m ms + wait ≤ now) ↔ SomeOlder now wait (m ∷ ms)
unfolding first_time
first_time_lem now wait m [] = ground arith
first_time_lem now wait m (n ∷ ms) = ground (arith, first_time_lem now wait n ms)

last_time_lem :
    (now wait : ℕ) (m : BufferedMessage) (ms : List BufferedMessage)
    → (last_time m ms + wait ≤ now) ↔ All (Older now wait) (m ∷ ms)
unfolding last_time
last_time_lem now wait m [] = ground arith
last_time_lem now wait m (n ∷ ms) = ground (arith, last_time_lem now wait n ms)

-- A batch is ready exactly when there is a message, the batch is full or some message has waited
-- for `batch_t`, and every message is at least `batch_quiet` old.
pub is_batch_ready_exact :
    (settings : Settings) (now : ℕ) (ms : List BufferedMessage)
    → (is_batch_ready settings now ms ≡ true) ↔ (
        (ms ≢ [])
        × ((settings.batch_n ≤ length ms) ⊎ SomeOlder now settings.batch_t ms)
        × All (Older now settings.batch_quiet) ms)
unfolding is_batch_ready
is_batch_ready_exact settings now [] = ground arith
is_batch_ready_exact settings now (m ∷ ms) =
    ground
      (arith, first_time_lem now settings.batch_t m ms, last_time_lem now settings.batch_quiet m ms)

take_whole : (n : ℕ) (ms : List BufferedMessage) → length ms ≤ n → take n ms ≡ ms
take_whole zero [] h = refl
take_whole (suc n) [] h = refl
take_whole zero (m ∷ ms) h = ground (arith, h)
take_whole (suc n) (m ∷ ms) h = ap (◌∷◌ m) (take_whole n ms (omega arith))

pub cap-take :
    (settings : Settings) (ms : List BufferedMessage) → cap settings ms ≡ take settings.batch_n ms
unfolding cap
cap-take settings ms = elim (Bool-cases (ltb settings.batch_n (length ms))) [
  | inl long ↦ rw long refl
  | inr short ↦ rw short (sym (take_whole settings.batch_n ms (ground (arith, short))))
]

or_again : (x y z : Bool) → ((x || (y || false)) || z) ≡ (x || (y || z))
or_again x y z = ground arith

old_known :
    (a : String) (mine theirs : List String) (slug : String)
    → contains mine slug ≡ true
    → (contains mine a || contains theirs a) ≡ (contains mine a || (slug == a || contains theirs a))
old_known a mine theirs slug old = elim (Bool-cases (slug == a)) [
  | inl e ↦ ground (arith, e, old, eq_iff slug a)
  | inr e ↦ rw e refl
]

-- Folding a later batch's threads into a list without repetition adds those that it lacks, and no
-- other, each once.
pub extend_new_lem :
    (a : String) (mine theirs : List String)
    → Distinct mine
    → (contains (extend_new mine theirs) a ≡ (contains mine a || contains theirs a))
      × Distinct (extend_new mine theirs)
unfolding extend_new
extend_new_lem a mine [] d = (ground arith, d)
extend_new_lem a mine (slug ∷ theirs) d = elim (Bool-cases (contains mine slug)) [
  | inl old ↦
      let same = extend_new_lem a mine theirs d in
      rw old (same.0 ∙ old_known a mine theirs slug old, same.1)
  | inr new ↦
      let more =
        extend_new_lem a (mine ++ slug ∷ []) theirs (Distinct-append_one mine slug d new) in
      rw new (
        more.0
            ∙ rw (contains-append mine (slug ∷ []) a)
                (or_again (contains mine a) (slug == a) (contains theirs a)),
        more.1,
      )
]
