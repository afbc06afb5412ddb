-- ===== src/Inbox.antt =====
-- An agent's inbox: shared/inbox/interface.py. Modelled are the changes that `post` and `ack` make
-- to the items of the page, and the wake-up calls; `line` writes a finished item as a line of the
-- page, and `mint` is the digest that makes an id.
pub mod Laws
mod Samples
use the_watcher.Prelude.{
  ℕ, Bool, true, false, not, ◌&&◌, ◌||◌, Option, none, some, List, [], ◌∷◌, ◌++◌, map,
  if◌then◌else◌, has, keep_if, contains, drop, length, ◌-◌,
}
use the_watcher.Prelude.{◌==◌, nat_is_eq, list_is_eq, option_is_eq}
use the_watcher.Text.{Text, is_empty}

pub record InboxPost : Type 0 where
  pub kind : Text
  pub text : Text
  pub trigger : Bool
  pub channel : Option Text
  pub thread_slug : Option Text
  pub thread_link : Option Text
  pub since : Option Text

pub record InboxItem : Type 0 where
  pub id : Text
  pub about : InboxPost
  pub posted_at : Option ℕ

abbrev pub is_given : Option Text → Bool
is_given none = false
is_given (some t) = true

-- `_same_subject`
unfoldable pub same_subject : InboxPost → InboxPost → Bool
same_subject a b =
    a.kind == b.kind
    && is_given a.thread_slug
    && a.channel == b.channel
    && a.thread_slug == b.thread_slug

-- `a or b` of two texts that may be missing or empty.
abbrev pub or_text : Option Text → Option Text → Option Text
or_text none b = b
or_text (some []) b = b
or_text (some (c ∷ t)) b = some (c ∷ t)

-- The item takes the post's text; its `since` and its trigger survive.
unfoldable pub merged : InboxPost → InboxItem → InboxItem
merged post item = record item {
  about = record item.about {
    text = post.text;
    trigger = item.about.trigger || post.trigger;
    thread_link = or_text post.thread_link item.about.thread_link;
    since = or_text item.about.since post.since;
  };
}

-- The first item of the same subject is merged, or the new one is last.
unfoldable pub post_one : InboxItem → List InboxItem → List InboxItem
post_one new [] = new ∷ []
post_one new (i ∷ items) =
    let later = i ∷ post_one new items in
    if same_subject i.about new.about then merged new.about i ∷ items else later

unfoldable pub item_of : (InboxPost → ℕ → Text) → ℕ → InboxPost → InboxItem
item_of mint now post = record { id = mint post now; about = post; posted_at = some now }

-- The change of `post`.
unfoldable pub post_all :
    (InboxPost → ℕ → Text) → ℕ → List InboxPost → List InboxItem → List InboxItem
post_all mint now [] items = items
post_all mint now (p ∷ posts) items = post_all mint now posts (post_one (item_of mint now p) items)

-- Whether the agent is woken.
unfoldable pub wakes : List InboxPost → Bool
wakes posts = has (λ p. p.trigger) posts

abbrev pub done_kept : ℕ
done_kept = 50

-- `done[-DONE_KEPT:]`
unfoldable pub last_done : List Text → List Text
last_done lines = drop (length lines - done_kept) lines

-- The change of `ack`, with what is kept of the finished lines; with no id it writes nothing.
unfoldable pub ack :
    (InboxItem → Text) → List Text → List InboxItem × List Text → List InboxItem × List Text
ack line [] (pending, finished) = (pending, finished)
ack line (id ∷ ids) (pending, finished) =
    let chosen : InboxItem → Bool = λ i. contains (id ∷ ids) i.id in
    (
      keep_if (λ i. not (chosen i)) pending,
      last_done (finished ++ map line (keep_if chosen pending)),
    )
