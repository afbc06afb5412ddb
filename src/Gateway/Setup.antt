-- ===== src/Gateway/Setup.antt =====
-- The sessions of the dialogue that /setup opens in a channel: shared/gateway/onboarding.py.
pub mod Dialogue
pub mod Answers
use the_watcher.Prelude.{◌≡◌, refl, inl, inr, arith, Bool-cases, list_eq_iff, true, sym}
use the_watcher.Prelude.{String, Bool, false, ◌&&◌, ◌||◌, Option, none, some, List, [], ◌∷◌}
use the_watcher.Prelude.{if◌then◌else◌, ◌==◌, string_is_eq, nat_is_eq, list_is_eq, contains, ltb}
use the_watcher.Text.{Text}
use the_watcher.Gateway.Db.{SetupSession, Db}

abbrev pub setup_steps : List String
setup_steps = "lead" ∷ "brief" ∷ "timeline" ∷ []

unfoldable pub is_active_in : Text → SetupSession → Bool
is_active_in channel row = row.channel == channel && contains setup_steps row.step

-- `order_by(created_at.desc(), id.desc())`
unfoldable pub is_newer : SetupSession → SetupSession → Bool
is_newer a b = ltb b.created_at a.created_at || (a.created_at == b.created_at && ltb b.id a.id)

unfoldable pub newer : SetupSession → Option SetupSession → SetupSession
newer row none = row
newer row (some best) = if is_newer best row then best else row

unfoldable pub newest : Text → List SetupSession → Option SetupSession
newest channel [] = none
newest channel (row ∷ rows) =
    let rest = newest channel rows in
    if is_active_in channel row then some (newer row rest) else rest

unfoldable pub active_setup_session : Text → Db → Option SetupSession
active_setup_session channel db = newest channel db.sessions

unfoldable pub asked_by : Text → Option SetupSession → Bool
asked_by sender none = false
asked_by sender (some row) = row.requested_by == sender

unfoldable pub has_setup_session : Text → Text → Db → Bool
has_setup_session channel sender db = asked_by sender (active_setup_session channel db)

abbrev cancel_row : SetupSession → SetupSession
cancel_row row = record row { step = "cancelled" }

unfoldable pub cancel_rows : Text → List SetupSession → List SetupSession
cancel_rows channel [] = []
cancel_rows channel (row ∷ rows) =
    let rest = cancel_rows channel rows in
    if is_active_in channel row then cancel_row row ∷ rest else row ∷ rest

unfoldable pub cancel_setup_sessions : Text → Db → Db
cancel_setup_sessions channel db = record db { sessions = cancel_rows channel db.sessions }

cancelled_is_idle : (c : Text) (row : SetupSession) → is_active_in c (cancel_row row) ≡ false
unfolding is_active_in
cancelled_is_idle c row = ground arith

active_elsewhere :
    (c channel : Text) (row : SetupSession)
    → (channel == c) ≡ false
    → is_active_in channel row ≡ true
    → is_active_in c row ≡ false
unfolding is_active_in
active_elsewhere c channel row differ active = ground (
  arith,
  differ,
  active,
  list_eq_iff row.channel channel,
  list_eq_iff row.channel c,
  list_eq_iff channel c,
)

newest-cancelled : (c : Text) (rows : List SetupSession) → newest c (cancel_rows c rows) ≡ none
unfolding newest cancel_rows
newest-cancelled c [] = refl
newest-cancelled c (row ∷ rows) = elim (Bool-cases (is_active_in c row)) [
  | inl active ↦ rw (active, cancelled_is_idle c row) (newest-cancelled c rows)
  | inr idle ↦ rw (idle, idle) (newest-cancelled c rows)
]

newest-cancel_rows :
    (c channel : Text) (rows : List SetupSession)
    → (channel == c) ≡ false
    → newest c (cancel_rows channel rows) ≡ newest c rows
unfolding newest cancel_rows
newest-cancel_rows c channel [] differ = refl
newest-cancel_rows c channel (row ∷ rows) differ = elim (Bool-cases (is_active_in channel row)) [
  | inl active ↦
      rw (active, cancelled_is_idle c row, active_elsewhere c channel row differ active)
        (newest-cancel_rows c channel rows differ)
  | inr idle ↦ rw (idle, newest-cancel_rows c channel rows differ) refl
]

-- Cancelling the dialogues of a channel leaves none active in it, and in every other channel the
-- one that was active.
pub active_setup_session-cancel_setup_sessions :
    (c channel : Text) (db : Db)
    → active_setup_session c (cancel_setup_sessions channel db)
      ≡ (if channel == c then none else active_setup_session c db)
unfolding active_setup_session cancel_setup_sessions
active_setup_session-cancel_setup_sessions c channel db = elim (Bool-cases (channel == c)) [
  | inl same ↦
      rw (same, sym ((list_eq_iff channel c).0 same)) (newest-cancelled channel db.sessions)
  | inr differ ↦ rw differ (newest-cancel_rows c channel db.sessions differ)
]
