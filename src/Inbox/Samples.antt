-- ===== src/Inbox/Samples.antt =====
-- An inbox with one item, and a post about the same thread.
use the_watcher.Prelude.{List, map, ◌++◌}
use the_watcher.Prelude.{
  ℕ, ◌≡◌, refl, true, false, ◌+◌, min, none, some, [], ◌∷◌, All, length, nat_is_eq, list_is_eq,
}
use the_watcher.Text.{Text, codes}
use the_watcher.Inbox.{InboxPost, InboxItem, post_all, ack, done_kept}
use the_watcher.Inbox.Laws.{Dealt, OneEach, Survives, post_all-OneEach, post_all-Survives, ack_lem}

abbrev update : InboxPost
update = record {
  kind = codes "thread_update";
  text = codes "New material";
  trigger = false;
  channel = some (codes "1@g.us");
  thread_slug = some (codes "20260101-logo");
  thread_link = none;
  since = some (codes "m1");
}

abbrev item : InboxItem
item = record { id = codes "n-1"; about = update; posted_at = some 3 }

abbrev urgent : InboxPost
urgent = record update { trigger = true; since = some (codes "m2") }

abbrev minted : InboxPost → ℕ → Text
minted post now = codes "n-2"

abbrev as_line : InboxItem → Text
as_line i = i.id

post_all-OneEach_example : OneEach (post_all minted 7 (urgent ∷ []) (item ∷ []))
post_all-OneEach_example = post_all-OneEach minted 7 (urgent ∷ []) (item ∷ []) (refl, tt)

post_all-Survives_example : All (Survives (post_all minted 7 (urgent ∷ []) (item ∷ []))) (item ∷ [])
post_all-Survives_example = post_all-Survives minted 7 (urgent ∷ []) (item ∷ [])

ack_example :
    (leaving : List InboxItem) × (dropped : List Text) × Dealt
      (codes "n-1" ∷ [])
      (item ∷ [])
      (ack as_line (codes "n-1" ∷ []) (item ∷ [], [])).0
      leaving
    × (dropped ++ (ack as_line (codes "n-1" ∷ []) (item ∷ [], [])).1 ≡ [] ++ map as_line leaving)
    × (length (ack as_line (codes "n-1" ∷ []) (item ∷ [], [])).1
        ≡ min done_kept (0 + length leaving))
ack_example = ack_lem as_line (codes "n-1") [] (item ∷ []) []
