-- ===== src/Gateway/Buffer/Laws.antt =====
-- What a consumer of the buffer can rely on.
use the_watcher.Prelude.{ℕ, ◌≡◌, refl, ap, sym, ◌∙◌, inl, inr, Bool, true, false, not}
use the_watcher.Prelude.{List, [], ◌∷◌, map, arith, Bool-cases}
use the_watcher.Prelude.{nat_is_eq, string_is_eq, list_is_eq, keep_if, contains, has}
use the_watcher.Text.{Text}
use the_watcher.Gateway.Db.{Message, Db}
use the_watcher.Gateway.Buffer.{
  to_inbound, is_open, is_other, is_pending, set_processed, drop_others, pending_rows,
  pending_messages, consume, mark_consumed,
}

is_pending-set_processed : (c : Text) (row : Message) → is_pending c (set_processed row) ≡ false
unfolding is_pending is_open
is_pending-set_processed c row = ground arith

is_other-set_processed : (c : Text) (row : Message) → is_other c (set_processed row) ≡ false
unfolding is_other is_open
is_other-set_processed c row = ground arith

is_pending-is_other :
    (c d : Text) (row : Message) → is_other d row ≡ true → is_pending c row ≡ false
unfolding is_pending is_other
is_pending-is_other c d row h = ground arith

pending_rows-drop_others :
    (c d : Text) (rows : List Message) → pending_rows c (drop_others d rows) ≡ pending_rows c rows
unfolding pending_rows keep_if drop_others
pending_rows-drop_others c d [] = refl
pending_rows-drop_others c d (row ∷ rows) = elim (Bool-cases (is_other d row)) [
  | inl other ↦
      rw (other, is_pending-set_processed c row, is_pending-is_other c d row other)
        (pending_rows-drop_others c d rows)
  | inr mine ↦ rw (mine, pending_rows-drop_others c d rows) refl
]

has-drop_others : (c : Text) (rows : List Message) → has (is_other c) (drop_others c rows) ≡ false
unfolding drop_others
has-drop_others c [] = refl
has-drop_others c (row ∷ rows) = elim (Bool-cases (is_other c row)) [
  | inl other ↦ rw (other, is_other-set_processed c row) (has-drop_others c rows)
  | inr mine ↦ rw (mine, mine) (has-drop_others c rows)
]

pending_rows-consume :
    (c : Text) (ids : List ℕ) (rows : List Message)
    → pending_rows c (consume ids rows)
      ≡ keep_if (λ row. not (contains ids row.id)) (pending_rows c rows)
unfolding pending_rows keep_if consume
pending_rows-consume c ids [] = refl
pending_rows-consume c ids (row ∷ rows) = elim (Bool-cases (contains ids row.id)) [
  | inl used ↦ elim (Bool-cases (is_pending c row)) [
    | inl p ↦ rw (used, is_pending-set_processed c row, p, used) (pending_rows-consume c ids rows)
    | inr p ↦ rw (used, is_pending-set_processed c row, p) (pending_rows-consume c ids rows)
  ]
  | inr kept ↦ elim (Bool-cases (is_pending c row)) [
    | inl p ↦ rw (kept, p, kept) (ap (◌∷◌ row) (pending_rows-consume c ids rows))
    | inr p ↦ rw (kept, p) (pending_rows-consume c ids rows)
  ]
]

module _ {A B : Type 0} where
  pub keep_if-map :
      (p : B → Bool) (f : A → B) (xs : List A)
      → keep_if p (map f xs) ≡ map f (keep_if (λ x. p (f x)) xs)
  unfolding keep_if
  keep_if-map p f [] = refl
  keep_if-map p f (x ∷ xs) = elim (Bool-cases (p (f x))) [
    | inl e ↦ rw e (ap (◌∷◌ (f x)) (keep_if-map p f xs))
    | inr e ↦ rw e (keep_if-map p f xs)
  ]

-- After a consumer reports the rows it has consumed, every channel's pending messages are the
-- former ones, in their order, without those rows.
pub pending_messages-mark_consumed :
    (c : Text) (ids : List ℕ) (db : Db)
    → (pending_messages c (mark_consumed ids db)).0
      ≡ keep_if (λ m. not (contains ids m.row_id)) (pending_messages c db).0
unfolding pending_messages mark_consumed to_inbound
pending_messages-mark_consumed c ids db =
    ap (map to_inbound) (pending_rows-consume c ids db.messages)
    ∙ sym (keep_if-map (λ m. not (contains ids m.row_id)) to_inbound (pending_rows c db.messages))

-- Reading a channel's pending messages takes none of them away, from this channel or another, and
-- leaves no event open in the channel that is not a message.
pub pending_messages-stable :
    (c d : Text) (db : Db)
    → let after = (pending_messages d db).1 in
      ((pending_messages c after).0 ≡ (pending_messages c db).0)
      × (has (is_other d) after.messages ≡ false)
unfolding pending_messages
pending_messages-stable c d db =
    (ap (map to_inbound) (pending_rows-drop_others c d db.messages), has-drop_others d db.messages)
