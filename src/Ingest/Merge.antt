-- ===== src/Ingest/Merge.antt =====
-- `concatenate_same_sender` and `recent_timeline_excerpt` of agents/wa_agent/ingestion.py.
use mathlib.Core.List.{append_assoc, reverse, reverse-append, reverse-reverse}
use the_watcher.Prelude.{
  ℕ, ◌+◌, ◌≡◌, refl, ap, sym, ◌∙◌, String, Bool, true, false, ◌&&◌, Option, none, some,
}
use the_watcher.Prelude.{List, [], ◌∷◌, ◌++◌, inl, inr, Bool-cases, if◌then◌else◌, leb, length}
use the_watcher.Prelude.{◌==◌, list_is_eq, nat_is_eq}
use the_watcher.Text.{Text, join_with}
use the_watcher.Ingest.Messages.{BufferedMessage}

unfoldable pub is_plain : Option String → Bool
is_plain none = true
is_plain (some id) = false

-- `m` joins the message before it: same sender, no reply, and close to the last message read.
unfoldable pub joins : ℕ → BufferedMessage → ℕ → BufferedMessage → Bool
joins window prev last m =
    m.sender == prev.sender && (is_plain m.replied_to_id && leb m.received_at (last + window))

abbrev pub join_messages : BufferedMessage → BufferedMessage → BufferedMessage
join_messages prev m = record prev {
  text = prev.text ++ 10 ∷ m.text;
  src_ids = prev.src_ids ++ m.src_ids;
}

-- The loop, with the message that stands last in `merged` and the time of the last one read.
unfoldable pub merge_from : ℕ → BufferedMessage → ℕ → List BufferedMessage → List BufferedMessage
merge_from window prev last [] = prev ∷ []
merge_from window prev last (m ∷ ms) =
    let joined = merge_from window (join_messages prev m) m.received_at ms in
    let apart = merge_from window m m.received_at ms in
    if joins window prev last m then joined else prev ∷ apart

unfoldable pub concatenate_same_sender : ℕ → List BufferedMessage → List BufferedMessage
concatenate_same_sender window [] = []
concatenate_same_sender window (m ∷ ms) = merge_from window m m.received_at ms

abbrev pub all_src_ids : List BufferedMessage → List String
all_src_ids [] = []
all_src_ids (m ∷ ms) = m.src_ids ++ all_src_ids ms

merge_from-src_ids :
    (window : ℕ) (prev : BufferedMessage) (last : ℕ) (ms : List BufferedMessage)
    → all_src_ids (merge_from window prev last ms) ≡ prev.src_ids ++ all_src_ids ms
unfolding merge_from
merge_from-src_ids window prev last [] = refl
merge_from-src_ids window prev last (m ∷ ms) = elim (Bool-cases (joins window prev last m)) [
  | inl e ↦ rw e (
      merge_from-src_ids window (join_messages prev m) m.received_at ms
      ∙ append_assoc prev.src_ids m.src_ids (all_src_ids ms))
  | inr e ↦ rw e (ap (λ t. prev.src_ids ++ t) (merge_from-src_ids window m m.received_at ms))
]

-- Joining the messages of one sender loses, repeats and reorders no message id: the ids of the
-- joined messages, in order, are those of the messages.
pub all_src_ids-concatenate_same_sender :
    (window : ℕ) (ms : List BufferedMessage)
    → all_src_ids (concatenate_same_sender window ms) ≡ all_src_ids ms
unfolding concatenate_same_sender
all_src_ids-concatenate_same_sender window [] = refl
all_src_ids-concatenate_same_sender window (m ∷ ms) = merge_from-src_ids window m m.received_at ms

-- The loop over the reversed timeline: lines are picked until their lengths reach the budget.
unfoldable pub pick_lines : ℕ → ℕ → List Text → List Text
pick_lines budget total [] = []
pick_lines budget total (line ∷ lines) =
    let now = total + length line + 1 in
    let rest = pick_lines budget now lines in if leb budget now then line ∷ [] else line ∷ rest

unfoldable pub recent_lines : ℕ → List Text → List Text
recent_lines budget timeline = reverse (pick_lines budget 0 (reverse timeline))

pub recent_timeline_excerpt : ℕ → List Text → Text
recent_timeline_excerpt budget timeline = join_with 10 (recent_lines budget timeline)

pick_lines_prefix :
    (budget total : ℕ) (lines : List Text)
    → (rest : List Text) × (pick_lines budget total lines ++ rest ≡ lines)
unfolding pick_lines
pick_lines_prefix budget total [] = ([], refl)
pick_lines_prefix budget total (line ∷ lines) =
    elim (Bool-cases (leb budget (total + length line + 1))) [
      | inl full ↦ (lines, rw full refl)
      | inr more ↦
          let p = pick_lines_prefix budget (total + length line + 1) lines in
          (p.0, rw more (ap (◌∷◌ line) p.1))
    ]

-- The excerpt is the end of the timeline.
pub recent_lines_suffix :
    (budget : ℕ) (timeline : List Text)
    → (older : List Text) × (older ++ recent_lines budget timeline ≡ timeline)
unfolding recent_lines
recent_lines_suffix budget timeline =
    let p = pick_lines_prefix budget 0 (reverse timeline) in
    (
      reverse p.0,
      sym (reverse-append (pick_lines budget 0 (reverse timeline)) p.0)
          ∙ ap reverse p.1
          ∙ reverse-reverse timeline,
    )
