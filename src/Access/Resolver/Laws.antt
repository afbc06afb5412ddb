-- ===== src/Access/Resolver/Laws.antt =====
-- A path resolves to a channel only if no other channel could be meant.
use the_watcher.Prelude.{◌≡◌, refl, Bool, true, ◌&&◌, ◌||◌, ℕ}
use the_watcher.Prelude.{some, List, [], ◌∷◌, arith, has, contains, All}
use the_watcher.Prelude.{◌==◌, list_is_eq, nat_is_eq, list_eq_iff}
use the_watcher.Text.{Text}
use the_watcher.Access.Resolver.{
  Channel, found, matches, is_whatsapp, add_to_set, matching_jids, pick, resolve_slug,
}

contains-add_to_set :
    (x : Text) (xs : List Text) (y : Text)
    → contains (add_to_set x xs) y ≡ (x == y || contains xs y)
unfolding add_to_set
contains-add_to_set x xs y = ground (arith, list_eq_iff x y)

pick_found : (jids : List Text) (jid : Text) → pick jids ≡ found jid → jids ≡ jid ∷ []
unfolding pick
pick_found [] jid h = cc
pick_found (a ∷ []) jid h = cc
pick_found (a ∷ b ∷ rest) jid h = cc

module _ (fold : ℕ → Text) (slug : Text) where
  -- A channel that the slug names, with a jid to answer for it.
  abbrev pub names : Channel → Bool
  names ch = matches fold slug ch && is_whatsapp ch.jid

  contains-matching_jids :
      (chs : List Channel) (jid : Text)
      → contains (matching_jids fold slug chs) jid ≡ has (λ ch. names ch && ch.jid == jid) chs
  unfolding matching_jids
  contains-matching_jids [] jid = refl
  contains-matching_jids (ch ∷ chs) jid = ground (
    arith,
    contains-matching_jids chs jid,
    contains-add_to_set ch.jid (matching_jids fold slug chs) jid,
  )

  only_jid :
      (chs : List Channel) (jid : Text)
      → ((other : Text) → has (λ ch. names ch && ch.jid == other) chs ≡ true → jid ≡ other)
      → All (λ ch. names ch ≡ true → jid ≡ ch.jid) chs
  only_jid [] jid h = tt
  only_jid (ch ∷ chs) jid h = (
    λ named. h ch.jid (ground (arith, list_eq_iff ch.jid ch.jid)),
    only_jid chs jid (λ other there. h other (ground arith)),
  )

  -- A slug that resolves to a jid names a channel with that jid, and every channel with a jid that
  -- the slug names has this one.
  pub resolve_slug_found :
      (chs : List Channel) (jid : Text)
      → resolve_slug fold slug (some chs) ≡ found jid
      → (has (λ ch. names ch && ch.jid == jid) chs ≡ true)
        × All (λ ch. names ch ≡ true → jid ≡ ch.jid) chs
  unfolding resolve_slug
  resolve_slug_found chs jid h =
      let one = pick_found (matching_jids fold slug chs) jid h in
      (
        ground (arith, contains-matching_jids chs jid, one, list_eq_iff jid jid),
        only_jid chs jid (λ other there.
            ground (arith, contains-matching_jids chs other, one, list_eq_iff jid other)),
      )
