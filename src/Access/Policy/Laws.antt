-- ===== src/Access/Policy/Laws.antt =====
-- What `can_read` grants, and why: exactly the listed reasons, for valid paths only.
use the_watcher.Prelude.{ℕ, ◌≡◌, ◌≢◌, refl, sym, ap, ◌∙◌, inl, inr, ◌↔◌, Bool, true, false}
use the_watcher.Prelude.{Option, some, List, [], ◌∷◌, ◌++◌, arith, has, contains, nat_eq}
use the_watcher.Prelude.{◌==◌, list_is_eq, nat_is_eq, list_eq_iff, Bool-cases, Option-cases}
use the_watcher.Text.{Text, Lacks, codes, is_empty, split_on, cons_first, IsTable}
use the_watcher.Access.Path.{normalize_path}
use the_watcher.Access.Path.Laws.{normalize_path_idempotent}
use the_watcher.Access.Membership.{clean}
use the_watcher.Access.Resolver.{
  Channel, Resolved, found, outside, invalid_path, unknown_channel, failed, resolve, coordis_jid,
  pick, drop_md, slug_part, matching_jids, resolve_slug, resolve_parts,
}
use the_watcher.Access.Policy.{
  Principal, overlap, first_of, first_segment, other_allowed_areas, starts_with, in_inbox,
  is_member, coordis_grants, channel_grants, area_grants, after_coordis, decide, can_read,
}

first_of-cons_first : (c : ℕ) (ps : List Text) → first_of (cons_first c ps) ≡ c ∷ first_of ps
unfolding cons_first
first_of-cons_first c [] = refl
first_of-cons_first c (p ∷ ps) = refl

first_segment_cons :
    (c : ℕ) (t : Text) → nat_eq c 47 ≡ false → first_segment (c ∷ t) ≡ c ∷ first_segment t
unfolding split_on
first_segment_cons c t h = ground (arith, first_of-cons_first c (split_on 47 t))

first_segment_slash : (t : Text) → first_segment (47 ∷ t) ≡ []
unfolding split_on
first_segment_slash t = refl

first_segment-starts_with :
    (p t : Text) → Lacks 47 p → starts_with (p ++ 47 ∷ []) t ≡ true → first_segment t ≡ p
first_segment-starts_with [] [] l h = cc
first_segment-starts_with [] (d ∷ t) l h =
    let e : 47 ≡ d = ground arith in rw (← e) (first_segment_slash t)
first_segment-starts_with (c ∷ p) [] l h = cc
first_segment-starts_with (c ∷ p) (d ∷ t) l h =
    let e : c ≡ d = ground arith in
    rw (← e) (
      first_segment_cons c t (ground (arith, l.0))
      ∙ ap (λ (u : Text). c ∷ u) (first_segment-starts_with p t l.1 (ground arith)))

inbox_segment : (norm : Text) → in_inbox norm ≡ true → first_segment norm ≡ codes "inbox"
unfolding in_inbox split_on
inbox_segment norm h = elim (Bool-cases (starts_with (codes "inbox/") norm)) [
  | inl below ↦ first_segment-starts_with (codes "inbox") norm (omega arith) below
  | inr above ↦ rw ((list_eq_iff norm (codes "inbox")).0 (ground arith)) refl
]

pick_inside : (jids : List Text) → (pick jids ≢ invalid_path) × (pick jids ≢ outside)
unfolding pick
pick_inside [] = (λ e. cc, λ e. cc)
pick_inside (jid ∷ []) = (λ e. cc, λ e. cc)
pick_inside (jid ∷ other ∷ rest) = (λ e. cc, λ e. cc)

resolve_parts_inside :
    (fold : ℕ → Text) (parts : List Text) (chs : Option (List Channel))
    → first_of parts ≡ codes "channels"
    → (resolve_parts fold parts chs ≢ invalid_path) × (resolve_parts fold parts chs ≢ outside)
unfolding resolve_parts resolve_slug
resolve_parts_inside fold [] chs h = cc
resolve_parts_inside fold (first ∷ rest) chs h = elim (Option-cases (slug_part rest)) [
  | inl missing ↦ ground (arith, list_eq_iff first (codes "channels"))
  | inr (part, there) ↦ elim (Option-cases chs) [
    | inl fails ↦ ground (arith, list_eq_iff first (codes "channels"))
    | inr (cs, listed) ↦ ground (
      arith,
      list_eq_iff first (codes "channels"),
      pick_inside (matching_jids fold (drop_md part) cs),
    )
  ]
]

module _ (fold : ℕ → Text) {S : Type 0} (get_channels : S → Option (List Channel))
    (members : Text → S → Option (List Text) × S) where
  -- The reasons for which a page may be read. The channel is looked up in the state that the
  -- lookup of the coordinators has left.
  pub data Reason (p : Principal) (norm : Text) (s : S) : Type 0 where
    admin : p.is_admin ≡ true → Reason p norm s
    flagged : p.is_privileged ≡ true → Reason p norm s
    coordinator :
        (jid : Text) (ms : List Text)
        → coordis_jid fold get_channels s ≡ some jid
        → (members jid s).0 ≡ some ms
        → overlap (clean p.identities) (clean ms) ≡ true
        → Reason p norm s
    channel_member :
        (t : S) (jid : Text) (ms : List Text)
        → t ≡ (coordis_grants fold get_channels members (clean p.identities) s).1
        → first_segment norm ≡ codes "channels"
        → resolve fold get_channels norm t ≡ found jid
        → (members jid t).0 ≡ some ms
        → overlap (clean p.identities) (clean ms) ≡ true
        → Reason p norm s
    open_area : contains other_allowed_areas (first_segment norm) ≡ true → Reason p norm s

  is_member-inverts :
      (ids : List Text) (jid : Text) (s : S)
      → (is_member fold get_channels members ids jid s).0 ≡ true
      → (ms : List Text) × ((members jid s).0 ≡ some ms) × (overlap ids (clean ms) ≡ true)
  unfolding is_member
  is_member-inverts ids jid s h = elim (Option-cases (members jid s).0) [
    | inl fails ↦ ground arith
    | inr (ms, answers) ↦ (ms, answers, ground arith)
  ]

  coordis_grants-inverts :
      (ids : List Text) (s : S)
      → (coordis_grants fold get_channels members ids s).0 ≡ true
      → (jid : Text) × (ms : List Text) × (coordis_jid fold get_channels s ≡ some jid)
        × ((members jid s).0 ≡ some ms)
        × (overlap ids (clean ms) ≡ true)
  unfolding coordis_grants
  coordis_grants-inverts ids s h = elim (Option-cases (coordis_jid fold get_channels s)) [
    | inl missing ↦ ground arith
    | inr (jid, there) ↦
        let (ms, answers, meets) = is_member-inverts ids jid s (ground arith) in
        (jid, ms, there, answers, meets)
  ]

  channel_grants-inverts :
      (ids : List Text) (norm : Text) (t : S)
      → (channel_grants fold get_channels members ids norm t).0 ≡ true
      → (jid : Text) × (ms : List Text) × (resolve fold get_channels norm t ≡ found jid)
        × ((members jid t).0 ≡ some ms)
        × (overlap ids (clean ms) ≡ true)
  channel_grants-inverts ids norm t h = by_channel (resolve fold get_channels norm t) refl
    where
      by_channel :
          (r : Resolved)
          → resolve fold get_channels norm t ≡ r
          → (jid : Text) × (ms : List Text) × (resolve fold get_channels norm t ≡ found jid)
            × ((members jid t).0 ≡ some ms)
            × (overlap ids (clean ms) ≡ true)
      by_channel (found jid) e =
          let (ms, answers, meets) =
            is_member-inverts ids jid t (unfold channel_grants in ground arith) in
          (jid, ms, e, answers, meets)
      by_channel outside e = unfold channel_grants in ground arith
      by_channel invalid_path e = unfold channel_grants in ground arith
      by_channel unknown_channel e = unfold channel_grants in ground arith
      by_channel failed e = unfold channel_grants in ground arith

  area_grants-inverts :
      (p : Principal) (norm : Text) (s : S)
      → (area_grants fold get_channels members
          (clean p.identities)
          norm
          (coordis_grants fold get_channels members (clean p.identities) s).1).0
        ≡ true
      → Reason p norm s
  unfolding area_grants
  area_grants-inverts p norm s h = elim (Bool-cases (first_segment norm == codes "channels")) [
    | inl channel ↦
        let t = (coordis_grants fold get_channels members (clean p.identities) s).1 in
        let (jid, ms, resolves, answers, meets) =
          channel_grants-inverts (clean p.identities) norm t (ground arith) in
        channel_member t jid ms refl ((list_eq_iff _ _).0 channel) resolves answers meets
    | inr other ↦ open_area (ground arith)
  ]

  decide-Reason :
      (p : Principal) (norm : Text) (s : S)
      → (decide fold get_channels members p norm s).0 ≡ true
      → Reason p norm s
  unfolding decide after_coordis
  decide-Reason p norm s h = elim (Bool-cases p.is_admin) [
    | inl yes' ↦ admin yes'
    | inr plain ↦ elim (Bool-cases p.is_privileged) [
      | inl yes' ↦ flagged yes'
      | inr unflagged ↦
          elim (Bool-cases (coordis_grants fold get_channels members (clean p.identities) s).0) [
            | inl grants ↦
                let (jid, ms, there, answers, meets) =
                  coordis_grants-inverts (clean p.identities) s grants in
                coordinator jid ms there answers meets
            | inr denies ↦ area_grants-inverts p norm s (ground arith)
          ]
    ]
  ]

  is_member_holds :
      (ids : List Text) (jid : Text) (ms : List Text) (s : S)
      → (members jid s).0 ≡ some ms
      → overlap ids (clean ms) ≡ true
      → (is_member fold get_channels members ids jid s).0 ≡ true
  unfolding is_member
  is_member_holds ids jid ms s answers meets = ground arith

  overlap_nonempty : (ids ms : List Text) → overlap ids ms ≡ true → has (λ i. true) ids ≡ true
  unfolding overlap
  overlap_nonempty [] ms h = h
  overlap_nonempty (i ∷ ids) ms h = refl

  channels-ne-inbox : (norm : Text) → first_segment norm ≡ codes "channels" → in_inbox norm ≡ false
  channels-ne-inbox norm h = elim (Bool-cases (in_inbox norm)) [
    | inl e ↦ absurd (differ (sym (inbox_segment norm e) ∙ h))
    | inr e ↦ e
  ]
    where
      differ : codes "inbox" ≡ codes "channels" → ⊥
      differ e = cc

  area-ne-inbox :
      (norm : Text)
      → contains other_allowed_areas (first_segment norm) ≡ true
      → (in_inbox norm ≡ false) × ((first_segment norm == codes "channels") ≡ false)
  area-ne-inbox norm h = elim (Bool-cases (in_inbox norm)) [
    | inl e ↦ absurd (cc (rw (inbox_segment norm e) at h))
    | inr e ↦ elim (Bool-cases (first_segment norm == codes "channels")) [
      | inl c ↦ absurd (cc (rw ((list_eq_iff (first_segment norm) (codes "channels")).0 c) at h))
      | inr c ↦ (e, c)
    ]
  ]

  area_grants_member :
      (ids : List Text) (norm : Text) (t : S) (jid : Text) (ms : List Text)
      → first_segment norm ≡ codes "channels"
      → resolve fold get_channels norm t ≡ found jid
      → (members jid t).0 ≡ some ms
      → overlap ids (clean ms) ≡ true
      → (area_grants fold get_channels members ids norm t).0 ≡ true
  unfolding area_grants channel_grants
  area_grants_member ids norm t jid ms first resolves answers meets = ground (
    arith,
    channels-ne-inbox norm first,
    list_eq_iff (first_segment norm) (codes "channels"),
    is_member_holds ids jid ms t answers meets,
    overlap_nonempty ids (clean ms) meets,
  )

  area_grants_open :
      (ids : List Text) (norm : Text) (t : S)
      → contains other_allowed_areas (first_segment norm) ≡ true
      → (area_grants fold get_channels members ids norm t).0 ≡ true
  unfolding area_grants
  area_grants_open ids norm t h = rw ((area-ne-inbox norm h).0, (area-ne-inbox norm h).1) h

  coordis_grants_holds :
      (ids : List Text) (jid : Text) (ms : List Text) (s : S)
      → coordis_jid fold get_channels s ≡ some jid
      → (members jid s).0 ≡ some ms
      → overlap ids (clean ms) ≡ true
      → (coordis_grants fold get_channels members ids s).0 ≡ true
  unfolding coordis_grants
  coordis_grants_holds ids jid ms s there answers meets =
      ground (arith, is_member_holds ids jid ms s answers meets)

  after_coordis_area :
      (ids : List Text) (norm : Text) (g : Bool) (t : S)
      → (area_grants fold get_channels members ids norm t).0 ≡ true
      → (after_coordis fold get_channels members ids norm g t).0 ≡ true
  unfolding after_coordis
  after_coordis_area ids norm true t h = refl
  after_coordis_area ids norm false t h = h

  decide_area :
      (p : Principal) (norm : Text) (s : S)
      → (area_grants fold get_channels members
          (clean p.identities)
          norm
          (coordis_grants fold get_channels members (clean p.identities) s).1).0
        ≡ true
      → (decide fold get_channels members p norm s).0 ≡ true
  unfolding decide
  decide_area p norm s h = ground (
    arith,
    after_coordis_area (clean p.identities) norm
        (coordis_grants fold get_channels members (clean p.identities) s).0
        (coordis_grants fold get_channels members (clean p.identities) s).1 h,
  )

  Reason-decide :
      (p : Principal) (norm : Text) (s : S)
      → Reason p norm s
      → (decide fold get_channels members p norm s).0 ≡ true
  Reason-decide p norm s (admin h) = unfold decide in ground arith
  Reason-decide p norm s (flagged h) = unfold decide in ground arith
  Reason-decide p norm s (coordinator jid ms there answers meets) =
      unfold decide after_coordis in
      ground (arith, coordis_grants_holds (clean p.identities) jid ms s there answers meets)
  Reason-decide p norm s (channel_member t jid ms after first resolves answers meets) =
      decide_area p norm s (
        rw after at
          (area_grants_member (clean p.identities) norm t jid ms first resolves answers meets))
  Reason-decide p norm s (open_area h) =
      decide_area p norm s (area_grants_open (clean p.identities) norm _ h)

  can_read-Reason :
      (p : Principal) (path : Text) (s : S)
      → (can_read fold get_channels members p path s).0 ≡ true
      → (norm : Text) × (normalize_path fold path ≡ some norm)
        × (is_empty norm ≡ false)
        × Reason p norm s
  unfolding can_read
  can_read-Reason p path s h = elim (Option-cases (normalize_path fold path)) [
    | inl invalid ↦ ground arith
    | inr (norm, valid) ↦ elim (Bool-cases (is_empty norm)) [
      | inl blank ↦ ground arith
      | inr filled ↦ (norm, valid, filled, decide-Reason p norm s (ground arith))
    ]
  ]

  Reason-can_read :
      (p : Principal) (path norm : Text) (s : S)
      → normalize_path fold path ≡ some norm
      → is_empty norm ≡ false
      → Reason p norm s
      → (can_read fold get_channels members p path s).0 ≡ true
  unfolding can_read
  Reason-can_read p path norm s valid filled why = ground (arith, Reason-decide p norm s why)

  -- The pages that a caller may read: the path is valid and not empty, and there is a reason. The
  -- caller is an administrator, or is flagged as privileged, or one of its identities is among
  -- the coordinators, or the page lies under `channels` and one of its identities is in the one
  -- channel that the path resolves to, or the page lies in an open area. A lookup that fails or
  -- is ambiguous is no reason.
  pub can_read_exact :
      (p : Principal) (path : Text) (s : S)
      → ((can_read fold get_channels members p path s).0 ≡ true) ↔ (
          (norm : Text) × (normalize_path fold path ≡ some norm)
          × (is_empty norm ≡ false)
          × Reason p norm s)
  can_read_exact p path s = (
    can_read-Reason p path s,
    λ (norm, valid, filled, why). Reason-can_read p path norm s valid filled why,
  )

  -- The given paths with those left out that may not be read when their turn comes.
  pub data Filtered (p : Principal) : S → List Text → List Text → Type 0 where
    end : {s : S} → Filtered p s [] []
    kept :
        {s : S} {path : Text} {paths allowed : List Text}
        → (can_read fold get_channels members p path s).0 ≡ true
        → Filtered p (can_read fold get_channels members p path s).1 paths allowed
        → Filtered p s (path ∷ paths) (path ∷ allowed)
    dropped :
        {s : S} {path : Text} {paths allowed : List Text}
        → (can_read fold get_channels members p path s).0 ≡ false
        → Filtered p (can_read fold get_channels members p path s).1 paths allowed
        → Filtered p s (path ∷ paths) allowed

  -- The path that the policy has normalised is resolved as the policy read it: under `channels` the
  -- resolver finds it neither invalid nor outside.
  pub resolve_agrees :
      IsTable fold
      → (path norm : Text) (s : S) → normalize_path fold path ≡ some norm
      → first_segment norm ≡ codes "channels"
      → (resolve fold get_channels norm s ≢ invalid_path)
        × (resolve fold get_channels norm s ≢ outside)
  unfolding resolve
  resolve_agrees table path norm s valid first =
      let again = normalize_path_idempotent fold table path norm valid in
      let parts = resolve_parts_inside fold (split_on 47 norm) (get_channels s) first in
      (ground (arith, parts.0), ground (arith, parts.1))
