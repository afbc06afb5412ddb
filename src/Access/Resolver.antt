-- ===== src/Access/Resolver.antt =====
-- `ChannelResolver` and `channel_dir` (shared/wiki/layout.py): the channel that a path belongs to.
-- Reading the channels is a function of the state `S`, with no result where the read raises.
pub mod Laws
use the_watcher.Prelude.{
  ℕ, ◌≡◌, ◌≢◌, refl, ◌⊎◌, inl, inr, String, Bool, true, false, not, ◌&&◌, ◌||◌,
}
use the_watcher.Prelude.{
  Option, none, some, List, [], ◌∷◌, arith, if◌then◌else◌, find_first, contains,
}
use the_watcher.Prelude.{
  ◌==◌, list_is_eq, nat_is_eq, string_is_eq, list_eq_iff, Bool-cases, Option-cases,
}
use the_watcher.Text.{Text, codes, is_empty, split_on, IsTable}
use the_watcher.Text.Slug.{slugify}
use the_watcher.Access.Path.{normalize_path}
use the_watcher.Access.Path.Laws.{normalize_path_idempotent}

pub record Channel : Type 0 where
  pub jid : Text
  pub title : Option Text
  pub kind : String

-- `title or jid`: an empty title is no title.
unfoldable pub title_or_jid : Option Text → Text → Text
title_or_jid none jid = jid
title_or_jid (some title) jid = if is_empty title then jid else title

unfoldable pub channel_dir : (ℕ → Text) → Channel → Text
channel_dir fold ch = slugify fold (title_or_jid ch.title ch.jid)

-- How `resolve` ends: the jid, `None`, or one of its exceptions.
pub data Resolved : Type 0 where
  found : Text → Resolved
  outside invalid_path unknown_channel failed : Resolved

-- `jid and "@" in jid`
unfoldable pub is_whatsapp : Text → Bool
is_whatsapp jid = contains jid 64

-- `slug_part[:-3] if slug_part.endswith(".md") else slug_part`
unfoldable pub drop_md : Text → Text
drop_md [] = []
drop_md (c ∷ t) = if (c ∷ t) == codes ".md" then [] else c ∷ drop_md t

unfoldable pub add_to_set : Text → List Text → List Text
add_to_set x xs = if contains xs x then xs else x ∷ xs

-- What follows the first segment gives the slug.
unfoldable pub slug_part : List Text → Option Text
slug_part [] = none
slug_part (a ∷ []) = some a
slug_part (a ∷ b ∷ rest) = if a == codes "archive" then some b else some a

unfoldable pub pick : List Text → Resolved
pick [] = unknown_channel
pick (jid ∷ []) = found jid
pick (jid ∷ other ∷ rest) = unknown_channel

module _ (fold : ℕ → Text) where
  unfoldable pub matches : Text → Channel → Bool
  matches slug ch =
      channel_dir fold ch == slug || not (is_empty ch.jid) && slugify fold ch.jid == slug

  unfoldable pub matching_jids : Text → List Channel → List Text
  matching_jids slug [] = []
  matching_jids slug (ch ∷ chs) =
      let rest = matching_jids slug chs in
      if matches slug ch && is_whatsapp ch.jid then add_to_set ch.jid rest else rest

  -- A slug that matches only channels without a jid is an unknown channel like one that matches none.
  unfoldable pub resolve_slug : Text → Option (List Channel) → Resolved
  resolve_slug slug none = failed
  resolve_slug slug (some chs) = pick (matching_jids slug chs)

  unfoldable pub resolve_parts : List Text → Option (List Channel) → Resolved
  resolve_parts [] chs = outside
  resolve_parts (first ∷ rest) chs =
      if first == codes "channels"
      then elim (slug_part rest) [
        | none ↦ unknown_channel
        | some part ↦
            if is_empty (drop_md part) then unknown_channel else resolve_slug (drop_md part) chs
      ]
      else outside

  module _ {S : Type 0} (get_channels : S → Option (List Channel)) where
    unfoldable pub resolve : Text → S → Resolved
    resolve path s = elim (normalize_path fold path) [
      | none ↦ invalid_path
      | some norm ↦ resolve_parts (split_on 47 norm) (get_channels s)
    ]

    -- The first channel of the kind that has a jid; a failed read is no channel.
    unfoldable pub coordis_jid : S → Option Text
    coordis_jid s = elim (get_channels s) [
      | none ↦ none
      | some chs ↦ elim (find_first (λ ch. ch.kind == "coordis" && is_whatsapp ch.jid) chs) [
        | none ↦ none
        | some ch ↦ some ch.jid
      ]
    ]
