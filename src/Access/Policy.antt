-- ===== src/Access/Policy.antt =====
-- `AccessPolicy`: the decision whether a caller may read a page. Channel membership is asked of a
-- provider, which may raise and may change the state `S` (its cache, the world behind it).
pub mod Laws
use the_watcher.Prelude.{
  ℕ, Bool, true, false, not, ◌&&◌, ◌||◌, Option, none, some, List, [], ◌∷◌, ◌++◌,
}
use the_watcher.Prelude.{if◌then◌else◌, has, contains, ◌==◌, list_is_eq, nat_is_eq}
use the_watcher.Text.{Text, codes, is_empty, split_on}
use the_watcher.Access.Path.{normalize_path}
use the_watcher.Access.Membership.{clean}
use the_watcher.Access.Resolver.{
  Channel, Resolved, found, outside, invalid_path, unknown_channel, failed, resolve, coordis_jid,
}

pub record Principal : Type 0 where
  pub identities : List Text
  pub is_admin : Bool
  pub is_privileged : Bool

-- `bool(xs & ys)`
unfoldable pub overlap : List Text → List Text → Bool
overlap xs ys = has (λ x. contains ys x) xs

abbrev pub first_of : List Text → Text
first_of [] = []
first_of (seg ∷ segs) = seg

abbrev pub first_segment : Text → Text
first_segment norm = first_of (split_on 47 norm)

abbrev pub other_allowed_areas : List Text
other_allowed_areas =
    codes "people" ∷ codes "projects" ∷ codes "events" ∷ codes "resources" ∷ codes "ideas" ∷ []

-- `norm.startswith("inbox/") or norm == "inbox"` says that the first segment is `inbox`.
abbrev pub starts_with : Text → Text → Bool
starts_with [] t = true
starts_with (c ∷ p) [] = false
starts_with (c ∷ p) (d ∷ t) = c == d && starts_with p t

unfoldable pub in_inbox : Text → Bool
in_inbox norm = starts_with (codes "inbox/") norm || norm == codes "inbox"

module _ (fold : ℕ → Text) {S : Type 0} (get_channels : S → Option (List Channel))
    (members : Text → S → Option (List Text) × S) where
  -- A failed lookup never grants.
  unfoldable pub is_member : List Text → Text → S → Bool × S
  is_member ids jid s =
      let (answer, s') = members jid s in
      (elim answer [ none ↦ false | some ms ↦ overlap ids (clean ms) ], s')

  unfoldable pub coordis_grants : List Text → S → Bool × S
  coordis_grants ids s = elim (coordis_jid fold get_channels s) [
    | none ↦ (false, s)
    | some jid ↦ is_member ids jid s
  ]

  unfoldable pub channel_grants : List Text → Text → S → Bool × S
  channel_grants ids norm s =
      if has (λ i. true) ids
      then elim (resolve fold get_channels norm s) [
        | found jid ↦ is_member ids jid s
        | outside ↦ (false, s)
        | invalid_path ↦ (false, s)
        | unknown_channel ↦ (false, s)
        | failed ↦ (false, s)
      ]
      else (false, s)

  -- The decision by where the page lies, once no privilege has granted it.
  unfoldable pub area_grants : List Text → Text → S → Bool × S
  area_grants ids norm s =
      if in_inbox norm
      then (false, s)
      else if first_segment norm == codes "channels"
      then channel_grants ids norm s
      else (contains other_allowed_areas (first_segment norm), s)

  -- The coordinators read everything; for the others the area decides.
  unfoldable pub after_coordis : List Text → Text → Bool → S → Bool × S
  after_coordis ids norm true s = (true, s)
  after_coordis ids norm false s = area_grants ids norm s

  -- The decision for a path that is valid and not empty.
  unfoldable pub decide : Principal → Text → S → Bool × S
  decide p norm s =
      if p.is_admin
      then (true, s)
      else if p.is_privileged
      then (true, s)
      else let ids = clean p.identities in
        let (granted, s') = coordis_grants ids s in after_coordis ids norm granted s'

  unfoldable pub can_read : Principal → Text → S → Bool × S
  can_read p path s = elim (normalize_path fold path) [
    | none ↦ (false, s)
    | some norm ↦ if is_empty norm then (false, s) else decide p norm s
  ]

  unfoldable pub filter_paths : Principal → List Text → S → List Text × S
  filter_paths p [] s = ([], s)
  filter_paths p (path ∷ paths) s =
      let (allowed, s') = can_read p path s in
      let (rest, s'') = filter_paths p paths s' in (if allowed then path ∷ rest else rest, s'')
