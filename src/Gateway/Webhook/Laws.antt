-- ===== src/Gateway/Webhook/Laws.antt =====
-- What the intake lets through, what it keeps, and that it stores no message twice.
use the_watcher.Prelude.{ℕ, ◌≡◌, refl, ap, ◌⊎◌, inl, inr, String, Bool, true, false, not, ◌&&◌}
use the_watcher.Prelude.{Option, none, some, List, [], ◌∷◌, ◌++◌, map, arith, Bool-cases}
use the_watcher.Prelude.{
  ◌==◌, string_is_eq, nat_is_eq, list_is_eq, eq_iff, keep_if, contains, Distinct,
  Distinct-append_one,
}
use the_watcher.Text.{Text}
use the_watcher.Gateway.Db.{GowaEvent, Message, Db}
use the_watcher.Gateway.Channels.{is_allowlisted, is_bot_admin, get_channel}
use the_watcher.Gateway.Setup.{has_setup_session, active_setup_session}
use the_watcher.Gateway.Webhook.{
  Outcome, refuse, chat_or_unknown, is_setup_input, is_admitted, find_message, replace_event,
  change_message, is_change, new_row, store, intake_named, intake, given_sender, is_command_of,
  is_reply_of,
}

abbrev message_ids : List Message → List String
message_ids rows = map (λ row. row.message_id) rows

unfoldable is_processed : Message → Bool
is_processed row = row.processed

abbrev processed_rows : List Message → List Message
processed_rows rows = keep_if is_processed rows

change_message_keeps_ids :
    (i : String) (f : Message → Message) (rows : List Message)
    → ((row : Message) → (f row).message_id ≡ row.message_id)
    → message_ids (change_message i f rows) ≡ message_ids rows
unfolding change_message
change_message_keeps_ids i f [] keeps = refl
change_message_keeps_ids i f (row ∷ rows) keeps = elim (Bool-cases (row.message_id == i)) [
  | inl e ↦ rw (e, keeps row) refl
  | inr e ↦ rw e (ap (◌∷◌ row.message_id) (change_message_keeps_ids i f rows keeps))
]

contains-message_ids :
    (i : String) (rows : List Message)
    → find_message i rows ≡ none
    → contains (message_ids rows) i ≡ false
unfolding find_message
contains-message_ids i [] h = refl
contains-message_ids i (row ∷ rows) h = ground (arith, contains-message_ids i rows)

skipped :
    (i : String) (r : Message) (rows : List Message) (row : Message)
    → (r.message_id == i) ≡ false
    → find_message i (r ∷ rows) ≡ some row
    → find_message i rows ≡ some row
unfolding find_message
skipped i r rows row e h = ground (arith, h, e)

found_waits :
    (i : String) (r : Message) (rows : List Message) (row : Message)
    → find_message i (r ∷ rows) ≡ some row
    → is_processed row ≡ false
    → (r.message_id == i) ≡ true
    → is_processed r ≡ false
unfolding find_message
found_waits i r rows row h waits e = ground (arith, h, waits, e)

-- A change of the row found, which is not processed and stays so, leaves the processed rows.
processed_rows-change_message :
    (i : String) (f : Message → Message) (rows : List Message) (row : Message)
    → find_message i rows ≡ some row
    → is_processed row ≡ false
    → ((r : Message) → is_processed (f r) ≡ is_processed r)
    → processed_rows (change_message i f rows) ≡ processed_rows rows
unfolding find_message change_message keep_if
processed_rows-change_message i f [] row h waits keeps = refl
processed_rows-change_message i f (r ∷ rows) row h waits keeps =
    elim (Bool-cases (r.message_id == i)) [
      | inl e ↦
          let mine : is_processed r ≡ false = found_waits i r rows row h waits e in
          rw (e, keeps r, mine) refl
      | inr e ↦ elim (Bool-cases (is_processed r)) [
        | inl done ↦
            rw (e, done)
              (ap (◌∷◌ r)
                (processed_rows-change_message i f rows row (skipped i r rows row e h) waits keeps))
        | inr left ↦
            rw (e, left)
              (processed_rows-change_message i f rows row (skipped i r rows row e h) waits keeps)
      ]
    ]

processed_rows-append :
    (rows : List Message) (row : Message)
    → is_processed row ≡ false
    → processed_rows (rows ++ row ∷ []) ≡ processed_rows rows
unfolding keep_if
processed_rows-append [] row waits = rw waits refl
processed_rows-append (r ∷ rows) row waits = elim (Bool-cases (is_processed r)) [
  | inl e ↦ rw e (ap (◌∷◌ r) (processed_rows-append rows row waits))
  | inr e ↦ rw e (processed_rows-append rows row waits)
]

-- What every outcome of `store` and `intake` has, from a database whose message ids differ: they
-- still differ, the processed rows are as they were, and a refusal leaves the database and
-- dispatches nothing.
pub Sound : Db → Outcome → Type 0
Sound db out =
    Distinct (message_ids out.db.messages)
    × (processed_rows out.db.messages ≡ processed_rows db.messages)
    × ((out.answer ≡ true) ⊎ (out ≡ refuse db))

refuse-Sound : (db : Db) → Distinct (message_ids db.messages) → Sound db (refuse db)
unfolding Sound refuse
refuse-Sound db d = (d, refl, inr refl)

message_ids-append :
    (rows : List Message) (row : Message)
    → message_ids (rows ++ row ∷ []) ≡ message_ids rows ++ row.message_id ∷ []
message_ids-append [] row = refl
message_ids-append (r ∷ rows) row = ap (◌∷◌ r.message_id) (message_ids-append rows row)

store-Sound :
    (now : ℕ) (i : String) (channel : Text) (event : GowaEvent) (b : Bool) (o : Option Message)
    (db : Db)
    → find_message i db.messages ≡ o
    → Distinct (message_ids db.messages)
    → Sound db (store now i channel event b o db)
unfolding Sound store is_processed refuse
store-Sound now i channel event b none db h d = (
  rw (message_ids-append db.messages (new_row now i channel event db))
      (Distinct-append_one (message_ids db.messages) i d (contains-message_ids i db.messages h)),
  processed_rows-append db.messages (new_row now i channel event db) refl,
  inl refl,
)
store-Sound now i channel event b (some row) db h d =
    elim (Bool-cases (is_change event && not row.processed)) [
      | inl changes ↦ rw changes (
        rw (change_message_keeps_ids i (replace_event now event) db.messages (λ r. refl)) d,
        processed_rows-change_message i (replace_event now event) db.messages row h
            (ground (arith, changes)) (λ r. refl),
        inl refl,
      )
      | inr stays ↦ rw stays (refuse-Sound db d)
    ]

intake_named-Admitted :
    (now : ℕ) (event : GowaEvent) (db : Db) (o : Option String)
    → (intake_named now event db o).answer ≡ true
    → is_admitted (chat_or_unknown event.chat_id) event db ≡ true
unfolding intake_named refuse
intake_named-Admitted now event db none h = ground (arith, h)
intake_named-Admitted now event db (some i) h = ground (arith, h)

-- An accepted event is from a group, and it is for a watched channel or is an admin's input.
pub intake-Admitted :
    (now : ℕ) (event : GowaEvent) (db : Db)
    → (intake now event db).answer ≡ true
    → is_admitted (chat_or_unknown event.chat_id) event db ≡ true
unfolding intake
intake-Admitted now event db h = intake_named-Admitted now event db event.message_id h

intake_named-Sound :
    (now : ℕ) (event : GowaEvent) (db : Db) (o : Option String)
    → Distinct (message_ids db.messages)
    → Sound db (intake_named now event db o)
unfolding intake_named
intake_named-Sound now event db none d = refuse-Sound db d
intake_named-Sound now event db (some i) d = elim (Bool-cases (i == "")) [
  | inl e ↦ rw e (refuse-Sound db d)
  | inr e ↦ elim (Bool-cases (is_admitted (chat_or_unknown event.chat_id) event db)) [
    | inl ok ↦
        rw (e, ok)
          (store-Sound now i (chat_or_unknown event.chat_id) event
            (is_setup_input (chat_or_unknown event.chat_id) event db) (find_message i db.messages)
            db refl d)
    | inr out ↦ rw (e, out) (refuse-Sound db d)
  ]
]

-- Whatever the event, if the ids of the stored messages differ: they still differ afterwards, no
-- processed message is changed, and the event is accepted or leaves the database as it was and
-- dispatches nothing.
pub intake-Sound :
    (now : ℕ) (event : GowaEvent) (db : Db)
    → Distinct (message_ids db.messages)
    → Sound db (intake now event db)
unfolding intake
intake-Sound now event db d = intake_named-Sound now event db event.message_id d

-- Storing a message changes nothing that the admission reads.
is_command_of-messages :
    (db : Db) (rows : List Message) (sender : Option Text) (text : Text)
    → is_command_of sender text (record db { messages = rows }) ≡ is_command_of sender text db
unfolding is_command_of is_bot_admin
is_command_of-messages db rows none text = refl
is_command_of-messages db rows (some s) text = refl

is_reply_of-messages :
    (channel : Text) (kind : String) (db : Db) (rows : List Message) (sender : Option Text)
    (text : Text)
    → is_reply_of channel kind sender text (record db { messages = rows })
      ≡ is_reply_of channel kind sender text db
unfolding is_reply_of has_setup_session active_setup_session
is_reply_of-messages channel kind db rows none text = refl
is_reply_of-messages channel kind db rows (some s) text = refl

is_admitted-messages :
    (channel : Text) (event : GowaEvent) (db : Db) (rows : List Message)
    → is_admitted channel event (record db { messages = rows }) ≡ is_admitted channel event db
unfolding is_admitted is_setup_input is_allowlisted get_channel
is_admitted-messages channel event db rows =
    rw
      (
        is_command_of-messages db rows (given_sender event.sender) event.text,
        is_reply_of-messages channel event.event_type db rows (given_sender event.sender)
            event.text,
      )
      refl

find_message-append :
    (i : String) (rows : List Message) (row : Message)
    → row.message_id ≡ i
    → (r : Message) × (find_message i (rows ++ row ∷ []) ≡ some r)
unfolding find_message
find_message-append i [] row h = (row, ground (arith, h, eq_iff row.message_id i))
find_message-append i (r ∷ rows) row h = elim (Bool-cases (r.message_id == i)) [
  | inl e ↦ (r, rw e refl)
  | inr e ↦ rw e (find_message-append i rows row h)
]

module _ (later : ℕ) (i : String) (channel : Text) (event : GowaEvent)
    (new : is_change event ≡ false) where
  store_known :
      (b : Bool) (row : Message) (db : Db) → store later i channel event b (some row) db ≡ refuse db
  unfolding store
  store_known b row db = rw new refl

  store_again :
      (now : ℕ) (b : Bool) (o : Option Message) (db : Db)
      → find_message i db.messages ≡ o
      → (row : Message) × (find_message i (store now i channel event b o db).db.messages ≡ some row)
  unfolding store refuse
  store_again now b none db h =
      find_message-append i db.messages (new_row now i channel event db) refl
  store_again now b (some row) db h = (row, rw new h)

  store_keeps_gate :
      (now : ℕ) (b : Bool) (o : Option Message) (db : Db)
      → is_admitted channel event (store now i channel event b o db).db
        ≡ is_admitted channel event db
  unfolding store refuse
  store_keeps_gate now b none db =
      is_admitted-messages channel event db (db.messages ++ new_row now i channel event db ∷ [])
  store_keeps_gate now b (some row) db = rw new refl

known_refused :
    (later : ℕ) (i : String) (event : GowaEvent) (db : Db) (row : Message)
    → is_change event ≡ false
    → find_message i db.messages ≡ some row
    → (intake_named later event db (some i)).answer ≡ false
unfolding intake_named refuse
known_refused later i event db row new h = elim (Bool-cases (i == "")) [
  | inl e ↦ rw e refl
  | inr e ↦ elim (Bool-cases (is_admitted (chat_or_unknown event.chat_id) event db)) [
    | inl ok ↦
        rw (e, ok, h)
          (ap (λ (out : Outcome). out.answer)
            (store_known later i (chat_or_unknown event.chat_id) event new
              (is_setup_input (chat_or_unknown event.chat_id) event db) row db))
    | inr out ↦ rw (e, out) refl
  ]
]

refused_twice :
    (later : ℕ) (event : GowaEvent) (db : Db) (o : Option String)
    → intake_named later event db o ≡ refuse db
    → (intake_named later event (refuse db).db o).answer ≡ false
unfolding refuse
refused_twice later event db o h = rw h refl

-- An event is refused at any time, or is stored under its id at any time.
intake_named-cases :
    (event : GowaEvent) (db : Db) (o : Option String)
    → ((now : ℕ) → intake_named now event db o ≡ refuse db)
      ⊎ ((i : String) × (o ≡ some i)
          × ((now : ℕ)
              → intake_named now event db o ≡ (
                  let channel = chat_or_unknown event.chat_id in
                  store now i channel event
                    (is_setup_input channel event db)
                    (find_message i db.messages)
                    db)))
unfolding intake_named
intake_named-cases event db none = inl (λ now. refl)
intake_named-cases event db (some i) = elim (Bool-cases (i == "")) [
  | inl e ↦ inl (λ now. rw e refl)
  | inr e ↦ elim (Bool-cases (is_admitted (chat_or_unknown event.chat_id) event db)) [
    | inl ok ↦ inr (i, refl, λ now. rw (e, ok) refl)
    | inr out ↦ inl (λ now. rw (e, out) refl)
  ]
]

redelivered_named :
    (now later : ℕ) (event : GowaEvent) (db : Db) (o : Option String)
    → is_change event ≡ false
    → (intake_named later event (intake_named now event db o).db o).answer ≡ false
redelivered_named now later event db o new = elim (intake_named-cases event db o) [
  | inl refused ↦ rw (refused now) (refused_twice later event db o (refused later))
  | inr (i, named, stored) ↦
      let again =
        store_again later i (chat_or_unknown event.chat_id) event new now
          (is_setup_input (chat_or_unknown event.chat_id) event db) (find_message i db.messages) db
          refl in
      rw (stored now, named) (known_refused later i event _ again.0 new again.1)
]

-- An event that is taken in a second time, directly on the database that its first intake left, and
-- that is neither an edit nor a revocation, is refused the second time.
pub intake_redelivered :
    (now later : ℕ) (event : GowaEvent) (db : Db)
    → is_change event ≡ false
    → (intake later event (intake now event db).db).answer ≡ false
unfolding intake
intake_redelivered now later event db new =
    redelivered_named now later event db event.message_id new
