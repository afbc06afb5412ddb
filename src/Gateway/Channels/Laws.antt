-- ===== src/Gateway/Channels/Laws.antt =====
-- The registry as a map from jids to channels.
use the_watcher.Prelude.{
  ◌≡◌, refl, sym, ap, ◌∙◌, inl, inr, String, Bool, true, false, Option, none, some,
}
use the_watcher.Prelude.{List, [], ◌∷◌, ◌++◌, arith, Bool-cases, if◌then◌else◌}
use the_watcher.Prelude.{◌==◌, string_is_eq, nat_is_eq, list_is_eq, list_eq_iff}
use the_watcher.Text.{Text}
use the_watcher.Gateway.Db.{Channel, Db}
use the_watcher.Gateway.Channels.{
  find_channel, change_channel, get_channel, is_watched, watched, is_allowlisted, describe,
  new_channel, upsert_row, upsert_channel, unset, unwatch_found, unwatch_channel,
}

pub same_text : (a b : Text) → (a == b) ≡ true → a ≡ b
same_text a b h = (list_eq_iff a b).0 h

abbrev pub change_found : (Channel → Channel) → Option Channel → Option Channel
change_found f none = none
change_found f (some row) = some (f row)

channel_inj : {a b : Channel} → some a ≡ some b → a ≡ b
channel_inj h = cc h

-- A change that keeps the jid is seen under that jid.
pub find_channel-changed :
    (j : Text) (f : Channel → Channel) (rows : List Channel)
    → ((row : Channel) → (f row).jid ≡ row.jid)
    → find_channel j (change_channel j f rows) ≡ change_found f (find_channel j rows)
unfolding find_channel change_channel
find_channel-changed j f [] keeps = refl
find_channel-changed j f (row ∷ rows) keeps = elim (Bool-cases (row.jid == j)) [
  | inl here ↦ rw (here, keeps row, here) refl
  | inr other ↦ rw (other, other) (find_channel-changed j f rows keeps)
]

-- It is not seen under another.
pub find_channel-unchanged :
    (i j : Text) (f : Channel → Channel) (rows : List Channel)
    → ((row : Channel) → (f row).jid ≡ row.jid)
    → (j == i) ≡ false
    → find_channel i (change_channel j f rows) ≡ find_channel i rows
unfolding find_channel change_channel
find_channel-unchanged i j f [] keeps differ = refl
find_channel-unchanged i j f (row ∷ rows) keeps differ = elim (Bool-cases (row.jid == j)) [
  | inl here ↦
      let away : (row.jid == i) ≡ false = rw (same_text row.jid j here) differ in
      rw (here, keeps row, away) refl
  | inr other ↦ elim (Bool-cases (row.jid == i)) [
    | inl e ↦ rw (other, e) refl
    | inr e ↦ rw (other, e) (find_channel-unchanged i j f rows keeps differ)
  ]
]

not_same : (a b : Text) → (a == b) ≡ false → (b == a) ≡ false
not_same a b h = ground (arith, list_eq_iff a b, list_eq_iff b a)

find_channel_head :
    (j : Text) (r : Channel) (rows : List Channel)
    → (r.jid == j) ≡ true
    → find_channel j (r ∷ rows) ≡ some r
unfolding find_channel
find_channel_head j r rows h = rw h refl

find_channel_skip :
    (j : Text) (r : Channel) (rows : List Channel)
    → (r.jid == j) ≡ false
    → find_channel j (r ∷ rows) ≡ find_channel j rows
unfolding find_channel
find_channel_skip j r rows h = rw h refl

find_channel-append :
    (i : Text) (row : Channel) (rows : List Channel)
    → find_channel row.jid rows ≡ none
    → find_channel i (rows ++ row ∷ []) ≡ (if row.jid == i then some row else find_channel i rows)
unfolding find_channel
find_channel-append i row [] h = refl
find_channel-append i row (r ∷ rows) h = elim (Bool-cases (r.jid == row.jid)) [
  | inl same ↦ cc (h, find_channel_head row.jid r rows same)
  | inr differ ↦ elim (Bool-cases (r.jid == i)) [
    | inl e ↦
        let away : (row.jid == i) ≡ false =
          rw (sym (same_text r.jid i e)) (not_same r.jid row.jid differ) in
        rw (e, away) refl
    | inr e ↦
        rw e (find_channel-append i row rows (sym (find_channel_skip row.jid r rows differ) ∙ h))
  ]
]

-- The cursor of a channel that may not be there.
abbrev pub cursor_of : Option Channel → Option String
cursor_of none = none
cursor_of (some row) = row.cursor

-- What is under a jid after `upsert_channel`: the fields that were given, and the cursor that was
-- there.
abbrev pub upserted : Text → String → Option Text → Option Text → Option Channel → Channel
upserted jid kind title initiative old = record {
  jid = jid;
  kind = kind;
  title = title;
  initiative = initiative;
  cursor = cursor_of old;
}

find_channel-jid :
    (j : Text) (rows : List Channel) (row : Channel) → find_channel j rows ≡ some row → row.jid ≡ j
unfolding find_channel
find_channel-jid j [] row h = absurd (cc h)
find_channel-jid j (r ∷ rows) row h = elim (Bool-cases (r.jid == j)) [
  | inl e ↦ ap (λ (c : Channel). c.jid) (sym (channel_inj (rw e at h))) ∙ same_text r.jid j e
  | inr e ↦ find_channel-jid j rows row (rw e at h)
]

describe-upserted :
    (j : Text) (kind : String) (title initiative : Option Text) (row : Channel)
    → row.jid ≡ j
    → describe kind title initiative row ≡ upserted j kind title initiative (some row)
describe-upserted j kind title initiative row h = λ i. record {
  jid = h i;
  kind = kind;
  title = title;
  initiative = initiative;
  cursor = row.cursor;
}

upsert_row_lem :
    (i j : Text) (kind : String) (title initiative : Option Text) (rows : List Channel)
    (o : Option Channel)
    → find_channel j rows ≡ o
    → find_channel i (upsert_row j kind title initiative o rows)
      ≡ (if j == i then some (upserted j kind title initiative o) else find_channel i rows)
unfolding upsert_row
upsert_row_lem i j kind title initiative rows none h =
    find_channel-append i (new_channel j kind title initiative) rows h
upsert_row_lem i j kind title initiative rows (some row) h = elim (Bool-cases (j == i)) [
  | inl same ↦
      rw
        (
          same,
          sym (same_text j i same),
          find_channel-changed j (describe kind title initiative) rows (λ r. refl),
          h,
        )
        (ap some (describe-upserted j kind title initiative row (find_channel-jid j rows row h)))
  | inr differ ↦
      rw differ
        (find_channel-unchanged i j (describe kind title initiative) rows (λ r. refl) differ)
]

-- After `upsert_channel` the channel with this jid has the new kind, title and initiative, and
-- the cursor that it had, or none if it was not there. Every other channel is what it was.
pub get_channel-upsert_channel :
    (i j : Text) (kind : String) (title initiative : Option Text) (db : Db)
    → get_channel i (upsert_channel j kind title initiative db) ≡ (
        if j == i
        then some (upserted j kind title initiative (get_channel j db))
        else get_channel i db)
unfolding upsert_channel get_channel
get_channel-upsert_channel i j kind title initiative db =
    upsert_row_lem i j kind title initiative db.channels (find_channel j db.channels) refl

unset_is_not_watched : (o : Option Channel) → watched (change_found unset o) ≡ false
unfolding watched is_watched
unset_is_not_watched none = refl
unset_is_not_watched (some row) = refl

unwatch_found_lem :
    (i j : Text) (db : Db) (b : Bool)
    → is_allowlisted j db ≡ b
    → is_allowlisted i (unwatch_found j b db).1 ≡ (if j == i then false else is_allowlisted i db)
unfolding unwatch_found is_allowlisted get_channel
unwatch_found_lem i j db true h = elim (Bool-cases (j == i)) [
  | inl same ↦
      rw (same, sym (same_text j i same), find_channel-changed j unset db.channels (λ r. refl))
        (unset_is_not_watched (find_channel j db.channels))
  | inr differ ↦ rw (differ, find_channel-unchanged i j unset db.channels (λ r. refl) differ) refl
]
unwatch_found_lem i j db false h = elim (Bool-cases (j == i)) [
  | inl same ↦ rw (same, sym (same_text j i same)) h
  | inr differ ↦ rw differ refl
]

unwatch_answer : (j : Text) (db : Db) (b : Bool) → (unwatch_found j b db).0 ≡ b
unfolding unwatch_found
unwatch_answer j db true = refl
unwatch_answer j db false = refl

-- `unwatch_channel` answers whether the channel was watched. Afterwards it is not, and every other
-- channel is watched if it was.
pub unwatch_channel_lem :
    (i j : Text) (db : Db)
    → ((unwatch_channel j db).0 ≡ is_allowlisted j db)
      × (is_allowlisted i (unwatch_channel j db).1
          ≡ (if j == i then false else is_allowlisted i db))
unfolding unwatch_channel
unwatch_channel_lem i j db =
    (unwatch_answer j db (is_allowlisted j db), unwatch_found_lem i j db (is_allowlisted j db) refl)
