-- ===== src/Proposals/Laws.antt =====
-- A proposal is settled once: what confirmations, reactions and the expiry do to the rows.
use the_watcher.Prelude.{Among}
use the_watcher.Prelude.{
  ℕ, ◌≡◌, ◌⊎◌, refl, ap, sym, ◌∙◌, inl, inr, String, Bool, true, false, not, ◌&&◌, Option, none,
  some,
}
use the_watcher.Prelude.{
  List, [], ◌∷◌, arith, Bool-cases, ◌==◌, string_is_eq, nat_is_eq, nat_eq, keep_if,
}
use the_watcher.Prelude.Table.{
  get_row, update_row, change_row, get_row-update_row, get_row-update_other,
}
use the_watcher.Text.{Text}
use the_watcher.Gateway.Db.{Db}
use the_watcher.Gateway.Channels.{is_bot_admin}
use the_watcher.Proposals.{
  Proposal, proposal_has_id, Desk, Outside, Reply, is_pending_row, expire, confirm_by, mark_expired,
  mark_confirmed, is_over, is_due_row, expire_rows, expire_due, execute, has_executor, settle,
  confirm_found, confirm, is_thumbs_up, confirm_message, react_to, handle_reaction, expire_stale,
  get_pending_by_message, is_pending_on, map_reply,
}

-- The row with this id is settled, and stays as it is.
abbrev pub Settled : List Proposal → ℕ → Proposal → Type 0
Settled rows i p = (get_row i rows ≡ some p) × (is_pending_row p ≡ false)

nat_same : (m n : ℕ) → nat_eq m n ≡ true → m ≡ n
nat_same m n h = ground (arith, h)

-- The update of a row that is pending leaves a settled one.
update_row-Settled :
    (i j : ℕ) (f : Proposal → Proposal) (rows : List Proposal) (p q : Proposal)
    → ((r : Proposal) → (f r).id ≡ r.id)
    → get_row j rows ≡ some q
    → is_pending_row q ≡ true
    → Settled rows i p
    → get_row i (update_row j f rows) ≡ some p
update_row-Settled i j f rows p q keeps found pend settled = elim (Bool-cases (nat_eq j i)) [
  | inl e ↦
      let same : get_row i rows ≡ some q =
        ap (λ k. get_row k rows) (sym (nat_same j i e)) ∙ found in
      ground (arith, same, pend, settled.0, settled.1)
  | inr e ↦ get_row-update_other i j f rows keeps e ∙ settled.0
]

get_row_head :
    (i : ℕ) (r : Proposal) (rows : List Proposal)
    → nat_eq r.id i ≡ true
    → get_row i (r ∷ rows) ≡ some r
unfolding get_row
get_row_head i r rows e = rw e refl

get_row_skip :
    (i : ℕ) (r : Proposal) (rows : List Proposal)
    → nat_eq r.id i ≡ false
    → get_row i (r ∷ rows) ≡ get_row i rows
unfolding get_row
get_row_skip i r rows e = rw e refl

past_is_not_due :
    (now i : ℕ) (r : Proposal) (rows : List Proposal) (p : Proposal)
    → nat_eq r.id i ≡ true
    → Settled (r ∷ rows) i p
    → is_due_row now r ≡ false
unfolding is_due_row
past_is_not_due now i r rows p mine settled =
    ground (arith, get_row_head i r rows mine, settled.0, settled.1)

expire_rows-Settled :
    (now i : ℕ) (rows : List Proposal) (p : Proposal)
    → Settled rows i p
    → get_row i (expire_rows now rows) ≡ some p
unfolding expire_rows get_row
expire_rows-Settled now i [] p settled = settled.0
expire_rows-Settled now i (r ∷ rows) p settled = elim (Bool-cases (nat_eq r.id i)) [
  | inl mine ↦
      let kept : is_due_row now r ≡ false = past_is_not_due now i r rows p mine settled in
      rw (kept, mine) (sym (get_row_head i r rows mine) ∙ settled.0)
  | inr other ↦
      let below : get_row i rows ≡ some p = sym (get_row_skip i r rows other) ∙ settled.0 in
      elim (Bool-cases (is_due_row now r)) [
        | inl due ↦ rw (due, other) (expire_rows-Settled now i rows p (below, settled.1))
        | inr not_due ↦ rw (not_due, other) (expire_rows-Settled now i rows p (below, settled.1))
      ]
]

confirmed_is_settled :
    (by : Text) (now : ℕ) (p : Proposal) → is_pending_row (confirm_by by now p) ≡ false
unfolding is_pending_row
confirmed_is_settled by now p = refl

proposal_inj : {p q : Proposal} → some p ≡ some q → p ≡ q
proposal_inj h = cc h

found_is_pending :
    (m : String) (rows : List Proposal) (q : Proposal)
    → get_pending_by_message m rows ≡ some q
    → is_pending_on m q ≡ true
unfolding get_pending_by_message
found_is_pending m [] q h = ground (arith, h)
found_is_pending m (p ∷ rows) q h = ground (arith, h, found_is_pending m rows q)

found-Among :
    (m : String) (rows : List Proposal) (q : Proposal)
    → get_pending_by_message m rows ≡ some q
    → Among rows q
unfolding get_pending_by_message
found-Among m [] q h = absurd (cc h)
found-Among m (p ∷ rows) q h = elim (Bool-cases (is_pending_on m p)) [
  | inl e ↦ inl (proposal_inj (rw e at h))
  | inr e ↦ inr (found-Among m rows q (rw e at h))
]

expired_is_settled : (p : Proposal) → is_pending_row (expire p) ≡ false
unfolding is_pending_row
expired_is_settled p = refl

-- Expiring the stale proposals leaves pending exactly the pending ones whose time is not over, in
-- their order.
pub keep_if-expire_rows :
    (now : ℕ) (rows : List Proposal)
    → keep_if is_pending_row (expire_rows now rows)
      ≡ keep_if (λ p. not (is_over now p.expires_at)) (keep_if is_pending_row rows)
unfolding expire_rows keep_if is_due_row
keep_if-expire_rows now [] = refl
keep_if-expire_rows now (p ∷ rows) = elim (Bool-cases (is_pending_row p)) [
  | inl pend ↦ elim (Bool-cases (is_over now p.expires_at)) [
    | inl over ↦ rw (pend, over, expired_is_settled p) (keep_if-expire_rows now rows)
    | inr left ↦ rw (pend, left, pend) (ap (◌∷◌ p) (keep_if-expire_rows now rows))
  ]
  | inr gone ↦ rw (gone, gone) (keep_if-expire_rows now rows)
]

module _ {W : Type 0} (outside : Outside W) where
  settle-Settled :
      (now i j : ℕ) (by : Text) (rows : List Proposal) (p q : Proposal) (known : Bool)
      (o : Option Reply × (Db × W))
      → get_row j rows ≡ some q
      → is_pending_row q ≡ true
      → Settled rows i p
      → get_row i (settle outside now j by rows known o).1.proposals ≡ some p
  unfolding settle mark_confirmed
  settle-Settled now i j by rows p q known (none, (db, w)) found pend settled = settled.0
  settle-Settled now i j by rows p q false (some reply, (db, w)) found pend settled = settled.0
  settle-Settled now i j by rows p q true (some reply, (db, w)) found pend settled =
      update_row-Settled i j (confirm_by by now) rows p q (λ r. refl) found pend settled

  confirm_found-Settled :
      (now i j : ℕ) (o : Option Proposal) (by : Text) (desk : Desk W) (p : Proposal)
      → get_row j desk.proposals ≡ o
      → Settled desk.proposals i p
      → get_row i (confirm_found outside now j o by desk).1.proposals ≡ some p
  unfolding confirm_found mark_expired
  confirm_found-Settled now i j none by desk p found settled = settled.0
  confirm_found-Settled now i j (some q) by desk p found settled =
      elim (Bool-cases (is_pending_row q)) [
        | inl pend ↦ elim (Bool-cases (is_over now q.expires_at)) [
          | inl over ↦
              rw (pend, over)
                (update_row-Settled i j expire desk.proposals p q (λ r. refl) found pend settled)
          | inr open_still ↦
              rw (pend, open_still)
                (settle-Settled now i j by desk.proposals p q (has_executor outside q.payload)
                  (execute outside q.payload by desk.db desk.world) found pend settled)
        ]
        | inr gone ↦ rw gone settled.0
      ]

  confirm-Settled :
      (now i j : ℕ) (by : Text) (desk : Desk W) (p : Proposal)
      → Settled desk.proposals i p
      → get_row i (confirm outside now j by desk).1.proposals ≡ some p
  unfolding confirm
  confirm-Settled now i j by desk p settled =
      confirm_found-Settled now i j (get_row j desk.proposals) by desk p refl settled

  confirm_message-Settled :
      (now i : ℕ) (by : Text) (o : Option Proposal) (desk : Desk W) (p : Proposal)
      → Settled desk.proposals i p
      → get_row i (confirm_message outside now by o desk).1.proposals ≡ some p
  unfolding confirm_message
  confirm_message-Settled now i by none desk p settled = settled.0
  confirm_message-Settled now i by (some q) desk p settled =
      confirm-Settled now i q.id by desk p settled

  react_to-Settled :
      (now i : ℕ) (by : Text) (m : Option String) (desk : Desk W) (p : Proposal)
      → Settled desk.proposals i p
      → get_row i (react_to outside now by m desk).1.proposals ≡ some p
  unfolding react_to
  react_to-Settled now i by none desk p settled = settled.0
  react_to-Settled now i by (some m) desk p settled = elim (Bool-cases (m == "")) [
    | inl e ↦ rw e settled.0
    | inr e ↦
        rw e (
          confirm_message-Settled now i by (get_pending_by_message m desk.proposals) desk p settled)
  ]

  handle_reaction-Settled :
      (now i : ℕ) (by : Text) (m emoji : Option String) (desk : Desk W) (p : Proposal)
      → Settled desk.proposals i p
      → get_row i (handle_reaction outside now by m emoji desk).1.proposals ≡ some p
  unfolding handle_reaction
  handle_reaction-Settled now i by m emoji desk p settled =
      elim (Bool-cases (is_thumbs_up emoji && is_bot_admin by desk.db)) [
        | inl e ↦ rw e (react_to-Settled now i by m desk p settled)
        | inr e ↦ rw e settled.0
      ]

  -- A proposal that is confirmed, rejected or expired keeps its whole row, whichever proposal is
  -- confirmed, whatever reaction arrives, and when stale ones expire.
  pub settled_forever :
      (now i j : ℕ) (by : Text) (m emoji : Option String) (desk : Desk W) (p : Proposal)
      → get_row i desk.proposals ≡ some p
      → is_pending_row p ≡ false
      → (get_row i (confirm outside now j by desk).1.proposals ≡ some p)
        × (get_row i (handle_reaction outside now by m emoji desk).1.proposals ≡ some p)
        × (get_row i (expire_stale outside now desk).1.proposals ≡ some p)
  unfolding expire_stale expire_due
  settled_forever now i j by m emoji desk p found done = (
    confirm-Settled now i j by desk p (found, done),
    handle_reaction-Settled now i by m emoji desk p (found, done),
    expire_rows-Settled now i desk.proposals p (found, done),
  )

  confirm_past :
      (later j : ℕ) (who : Text) (desk : Desk W) (p : Proposal)
      → Settled desk.proposals j p
      → confirm outside later j who desk ≡ (some (Reply.already p.status), desk)
  unfolding confirm confirm_found
  confirm_past later j who desk p settled = rw (settled.0, settled.1) refl

  confirmed_desk :
      (now i : ℕ) (by : Text) (desk : Desk W) (p : Proposal) (reply : Reply) (db : Db) (w : W)
      → get_row i desk.proposals ≡ some p
      → is_pending_row p ≡ true
      → is_over now p.expires_at ≡ false
      → has_executor outside p.payload ≡ true
      → execute outside p.payload by desk.db desk.world ≡ (some reply, (db, w))
      → confirm outside now i by desk ≡ (
        some reply,
        record { proposals = update_row i (confirm_by by now) desk.proposals; db = db; world = w },
      )
  unfolding confirm confirm_found settle mark_confirmed
  confirmed_desk now i by desk p reply db w found pend over known ran =
      rw (found, pend, over, known, ran) refl

  -- Confirming a pending proposal whose time is not over, of a known kind and with an executor
  -- that returns: the reply and the effects are the executor's, the row says who confirmed it and
  -- when, and any later confirmation executes nothing and answers that it is already confirmed.
  pub confirm_once :
      (now later i : ℕ) (by who : Text) (desk : Desk W) (p : Proposal) (reply : Reply) (db : Db)
      (w : W)
      → get_row i desk.proposals ≡ some p
      → is_pending_row p ≡ true
      → is_over now p.expires_at ≡ false
      → has_executor outside p.payload ≡ true
      → execute outside p.payload by desk.db desk.world ≡ (some reply, (db, w))
      → let out = confirm outside now i by desk in
        (out.0 ≡ some reply)
        × (get_row i out.1.proposals ≡ some (confirm_by by now p))
        × (out.1.db ≡ db)
        × (out.1.world ≡ w)
        × (confirm outside later i who out.1 ≡ (some (Reply.already "confirmed"), out.1))
  confirm_once now later i by who desk p reply db w found pend over known ran =
      let done = confirmed_desk now i by desk p reply db w found pend over known ran in
      let row =
        get_row-update_row i (confirm_by by now) desk.proposals (λ r. refl)
        ∙ ap (change_row (confirm_by by now)) found in
      rw done (
        refl,
        row,
        refl,
        refl,
        confirm_past later i who _ (confirm_by by now p) (row, confirmed_is_settled by now p),
      )

  pub Confirms : ℕ → Text → Option String → Desk W → Option (Option Reply) × Desk W → Type 0
  Confirms now by message_id desk out =
      (m : String) × (q : Proposal) × (message_id ≡ some m)
      × Among desk.proposals q
      × (is_pending_on m q ≡ true)
      × (out
          ≡ (map_reply (confirm outside now q.id by desk).0, (confirm outside now q.id by desk).1))

  confirm_message-Confirms :
      (now : ℕ) (by : Text) (m : String) (o : Option Proposal) (desk : Desk W)
      → get_pending_by_message m desk.proposals ≡ o
      → (confirm_message outside now by o desk ≡ (some none, desk))
        ⊎ Confirms now by (some m) desk (confirm_message outside now by o desk)
  unfolding confirm_message Confirms
  confirm_message-Confirms now by m none desk h = inl refl
  confirm_message-Confirms now by m (some q) desk h =
      inr
        (m, q, refl, found-Among m desk.proposals q h, found_is_pending m desk.proposals q h, refl)

  react_to-Confirms :
      (now : ℕ) (by : Text) (o : Option String) (desk : Desk W)
      → (react_to outside now by o desk ≡ (some none, desk))
        ⊎ Confirms now by o desk (react_to outside now by o desk)
  unfolding react_to
  react_to-Confirms now by none desk = inl refl
  react_to-Confirms now by (some m) desk = elim (Bool-cases (m == "")) [
    | inl e ↦ inl (rw e refl)
    | inr e ↦
        rw e (confirm_message-Confirms now by m (get_pending_by_message m desk.proposals) desk refl)
  ]

  -- A reaction does nothing at all, or it is a thumbs up of a bot admin on the message of a
  -- proposal that is among the rows and pending, and does what confirming the proposal with its id
  -- in the admin's name does.
  pub handle_reaction_lem :
      (now : ℕ) (by : Text) (m emoji : Option String) (desk : Desk W)
      → (handle_reaction outside now by m emoji desk ≡ (some none, desk))
        ⊎ ((is_thumbs_up emoji ≡ true)
            × (is_bot_admin by desk.db ≡ true)
            × Confirms now by m desk (handle_reaction outside now by m emoji desk))
  unfolding handle_reaction
  handle_reaction_lem now by m emoji desk =
      elim (Bool-cases (is_thumbs_up emoji && is_bot_admin by desk.db)) [
        | inr e ↦ inl (rw e refl)
        | inl e ↦ rw e (elim (react_to-Confirms now by m desk) [
          | inl idle ↦ inl idle
          | inr acts ↦ inr (ground (arith, e), ground (arith, e), acts)
        ])
      ]
