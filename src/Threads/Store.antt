-- ===== src/Threads/Store.antt =====
-- The thread store's reading of a channel: `StoredThread`, `_to_thread`, `_load`, and what is read
-- from the two cached directories. `fold` folds the case of a title, `is_word` is the regular
-- expressions' `\w`, and `hash` is the digest that makes a revision.
pub mod Laws
use the_watcher.Prelude.{
  ℕ, zero, suc, ◌+◌, String, Bool, true, false, not, ◌&&◌, ◌||◌, Option, none, some, List, [], ◌∷◌,
  ◌++◌, map, if◌then◌else◌,
}
use the_watcher.Prelude.{
  ◌==◌, nat_is_eq, list_is_eq, string_is_eq, nat_eq, ltb, contains, keep_if, length,
}
use the_watcher.Prelude.Dict.{Dict, lookup, insert, keys, values}
use the_watcher.Text.{Text, codes}
use the_watcher.Text.Order.{le_text, sort_by}
use the_watcher.Access.Resolver.{Channel}
use the_watcher.Wiki.Page.{Page}
use the_watcher.Wiki.Editor.{fenced_content}
use the_watcher.Vault.{whole, Vault, read, list}
use the_watcher.Threads.Page.{
  ThreadState, ThreadMeta, Front, Content, thread_dir, archive_dir, timeline_lines,
  timeline_src_ids, unique,
}
use the_watcher.Threads.Equal.{state_is_eq}

pub record StoredThread : Type 0 where
  pub slug : Text
  pub path : Text
  pub title : Text
  pub state : ThreadState
  pub summary : Text
  pub items_body : Text
  pub timeline : List Text
  pub message_ids : List Text
  pub participants : List Text
  pub last_message_at : Option ℕ
  pub archived : Bool
  pub revision : Text
  pub page : Page Front

-- The store of one channel: what it has read of the two directories, and the vault below it.
pub record Store : Type 0 where
  pub channel : Channel
  pub initiative : Option Text
  pub live : Option (Dict Text StoredThread)
  pub archive : Option (Dict Text StoredThread)
  pub vault : Vault Content

-- How a call ends that raises. `create` never ends for want of a free id.
pub data Failure : Type 0 where
  conflict_error no_revision assertion_error key_error ownership_error unsupported_order no_free_id
        unreadable_page invalid_edit :
      Failure

pub data Done (A : Type 0) : Type 0 where
  done : A → Store → Done A
  failed : Failure → Store → Done A

unfoldable pub bind : {A B : Type 0} → Done A → (A → Store → Done B) → Done B
bind (Done.done a s) f = f a s
bind (Done.failed e s) f = Done.failed e s

abbrev flattened : List (List Text) → List Text
flattened [] = []
flattened (xs ∷ xss) = xs ++ flattened xss

unfoldable pub count_of : ℕ → Text → ℕ
count_of c [] = 0
count_of c (d ∷ t) = let n = count_of c t in if nat_eq d c then suc n else n

-- The order of `threads`: by id, or the last message first, undated ones last.
unfoldable pub by_slug : StoredThread → StoredThread → Bool
by_slug t u = le_text t.slug u.slug

abbrev newer : Option ℕ → Option ℕ → Bool → Bool
newer none none tie = tie
newer none (some n) tie = false
newer (some m) none tie = true
newer (some m) (some n) tie = ltb n m || nat_eq m n && tie

unfoldable pub by_recent : StoredThread → StoredThread → Bool
by_recent t u = newer t.last_message_at u.last_message_at (le_text t.slug u.slug)

unfoldable pub in_order : String → Store → List StoredThread → Done (List StoredThread)
in_order order s threads =
    if order == "slug"
    then Done.done (sort_by by_slug threads) s
    else if order == "recent"
    then Done.done (sort_by by_recent threads) s
    else Done.failed Failure.unsupported_order s

abbrev pub or_thread : Option StoredThread → Option StoredThread → Option StoredThread
or_thread (some t) o = some t
or_thread none o = o

unfoldable pub with_src_id : Text → List StoredThread → Option StoredThread
with_src_id src_id [] = none
with_src_id src_id (t ∷ ts) =
    let rest = with_src_id src_id ts in if contains t.message_ids src_id then some t else rest

-- What is cached, or is read now.
unfoldable pub cached :
    Option (Dict Text StoredThread) → Dict Text StoredThread → Dict Text StoredThread
cached none loaded = loaded
cached (some d) loaded = d

module _ (fold : ℕ → Text) (is_word : ℕ → Bool) where
  unfoldable pub thread_of_meta : Text → Page Front → Text → Bool → Front → Option StoredThread
  thread_of_meta path page revision archived (Front.thread_front fm) =
      let timeline = timeline_lines (fenced_content fold is_word page (codes "Timeline")) in
      some (record {
        slug = fm.slug;
        path = path;
        title = fm.title;
        state = fm.state;
        summary = fenced_content fold is_word page (codes "Summary");
        items_body = fenced_content fold is_word page (codes "Items");
        timeline = timeline;
        message_ids = unique (fm.message_ids ++ flattened (map timeline_src_ids timeline));
        participants = fm.participants;
        last_message_at = fm.last_message_at;
        archived = archived;
        revision = revision;
        page = page;
      })
  thread_of_meta path page revision archived (Front.channel_front fm) = none
  thread_of_meta path page revision archived Front.other_front = none

  -- `_to_thread`
  unfoldable pub to_thread : Text → Content → Text → Bool → Option StoredThread
  to_thread path (Content.broken text) revision archived = none
  to_thread path (Content.page p) revision archived =
      if p.page_type == "thread"
      then thread_of_meta path p revision archived p.frontmatter
      else none

  unfoldable pub add_thread : Option StoredThread → Dict Text StoredThread → Dict Text StoredThread
  add_thread none out = out
  add_thread (some t) out = insert t.slug t out

  module _ (hash : Content → Text) where
    unfoldable pub add_read :
        Text → Option (Content × Text) → Bool → Dict Text StoredThread → Dict Text StoredThread
    add_read path none archived out = out
    add_read path (some (content, revision)) archived out =
        add_thread (to_thread path content revision archived) out

    unfoldable pub load_from :
        ℕ → Bool → Vault Content → List Text → Dict Text StoredThread → Dict Text StoredThread
    load_from depth archived v [] out = out
    load_from depth archived v (path ∷ paths) out =
        let skipped = load_from depth archived v paths out in
        let added =
          load_from depth archived v paths (add_read path (read hash whole path v) archived out) in
        if nat_eq (count_of 47 path) depth then added else skipped

    -- `_load`
    unfoldable pub load : Text → Bool → Vault Content → Dict Text StoredThread
    load prefix archived v = load_from (count_of 47 prefix + 1) archived v (list prefix v) []

    -- `_live` and `_archive`
    unfoldable pub live_of : Store → Dict Text StoredThread
    live_of s = cached s.live (load (thread_dir fold s.channel) false s.vault)

    unfoldable pub archive_of : Store → Dict Text StoredThread
    archive_of s = cached s.archive (load (archive_dir fold s.channel) true s.vault)

    unfoldable pub with_live : Store → Store
    with_live s = record s { live = some (live_of s) }

    unfoldable pub with_archive : Store → Store
    with_archive s = record s { archive = some (archive_of s) }

    unfoldable pub in_states : List ThreadState → Store → List StoredThread
    in_states states s = keep_if (λ t. contains states t.state) (values (live_of s))

    -- `threads`
    unfoldable pub threads : List ThreadState → String → Store → Done (List StoredThread)
    threads states order s = in_order order (with_live s) (in_states states s)

    unfoldable pub get : Text → Store → Option StoredThread
    get slug s = or_thread (lookup slug (live_of s)) (lookup slug (archive_of s))

    unfoldable pub find_by_src_id : Text → List ThreadState → Store → Done (Option StoredThread)
    find_by_src_id src_id states s =
        bind (threads states "slug" s) (λ ts after. Done.done (with_src_id src_id ts) after)
