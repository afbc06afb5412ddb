-- ===== src/Access/Membership.antt =====
-- `CachedMembership`: who is in a channel, remembered for `ttl`. The provider behind it and the
-- clock act on a world `W`. Times are milliseconds.
use the_watcher.Prelude.{ℕ, ◌+◌, ◌≤◌, ◌<◌, ◌≡◌, refl, ◌⊎◌, inl, inr, not}
use the_watcher.Prelude.{Option, none, some, List, map, arith, ltb, if◌then◌else◌}
use the_watcher.Prelude.{◌==◌, list_is_eq, nat_is_eq, keep_if, Option-cases, Bool-cases}
use the_watcher.Prelude.Dict
use the_watcher.Prelude.Dict.{Dict}
use the_watcher.Text.{Text, is_empty, is_space, strip_if}

-- `frozenset(m.strip() for m in members if m.strip())`, as a list.
unfoldable pub clean : List Text → List Text
unfolding strip_if is_space keep_if
clean members = keep_if (λ m. not (is_empty m)) (map (strip_if is_space) members)

-- An answer that was fetched, and the time at which it stops being used.
pub record Entry : Type 0 where
  pub expires_at : ℕ
  pub cached : List Text

abbrev pub Cache : Type 0
Cache = Dict Text Entry

-- What is kept and returned once the provider has answered. No answer is `MembershipUnavailable`.
keep_answer :
    {W : Type 0} → Text → ℕ → Cache → Option (List Text) → W → Option (List Text) × (Cache × W)
keep_answer channel expires cache none w = (none, (cache, w))
keep_answer channel expires cache (some members) w =
    let entry : Entry = record { expires_at = expires; cached = clean members } in
    (some (clean members), (Dict.insert channel entry cache, w))

module _ {W : Type 0} (clock : W → ℕ) (ttl : ℕ) (provider : Text → W → Option (List Text) × W) where
  fetch : Text → ℕ → Cache × W → Option (List Text) × (Cache × W)
  unfolding keep_answer
  fetch channel now (cache, w) =
      let (answer, w') = provider channel w in keep_answer channel (now + ttl) cache answer w'

  unfoldable pub members : Text → Cache × W → Option (List Text) × (Cache × W)
  unfolding fetch
  members channel (cache, w) = elim (Dict.lookup channel cache) [
    | none ↦ fetch channel (clock w) (cache, w)
    | some entry ↦
        if ltb (clock w) entry.expires_at
        then (some entry.cached, (cache, w))
        else fetch channel (clock w) (cache, w)
  ]

  -- A remembered answer is used until it expires: then the cache and the world stay as they are,
  -- and the provider is not asked.
  pub members_cached :
      (channel : Text) (cache : Cache) (w : W) (entry : Entry)
      → Dict.lookup channel cache ≡ some entry
      → clock w < entry.expires_at
      → members channel (cache, w) ≡ (some entry.cached, (cache, w))
  unfolding members
  members_cached channel cache w entry found fresh = ground arith

  -- No answer is in force for the channel at the time.
  abbrev pub IsStale : Text → Cache → ℕ → Type 0
  IsStale channel cache now =
      (entry : Entry) → Dict.lookup channel cache ≡ some entry → entry.expires_at ≤ now

  members_stale :
      (channel : Text) (cache : Cache) (w : W)
      → IsStale channel cache (clock w)
      → members channel (cache, w)
        ≡ keep_answer channel (clock w + ttl) cache (provider channel w).0 (provider channel w).1
  unfolding members
  members_stale channel cache w stale = elim (Option-cases (Dict.lookup channel cache)) [
    | inl missing ↦ ground arith
    | inr (entry, found) ↦ ground (arith, stale entry found)
  ]

  -- With no answer in force the provider is asked. Its failure is passed on and leaves the cache
  -- alone; its answer is cleaned, returned, and kept for `ttl` from the time of the call, with the
  -- answers for other channels untouched.
  pub members_fetched :
      (channel : Text) (cache : Cache) (w : W)
      → IsStale channel cache (clock w)
      → (((provider channel w).0 ≡ none)
          × (members channel (cache, w) ≡ (none, (cache, (provider channel w).1))))
        ⊎ ((answer : List Text) × ((provider channel w).0 ≡ some answer)
            × ((members channel (cache, w)).0 ≡ some (clean answer))
            × ((members channel (cache, w)).1.1 ≡ (provider channel w).1)
            × ((other : Text)
                → Dict.lookup other (members channel (cache, w)).1.0 ≡ (
                    if channel == other
                    then some (record { expires_at = clock w + ttl; cached = clean answer })
                    else Dict.lookup other cache)))
  members_fetched channel cache w stale =
      rw (members_stale channel cache w stale)
        (by_answer (provider channel w).0 (provider channel w).1)
    where
      by_answer :
          (o : Option (List Text)) (v : W)
          → ((o ≡ none) × (keep_answer channel (clock w + ttl) cache o v ≡ (none, (cache, v))))
            ⊎ ((answer : List Text) × (o ≡ some answer)
                × ((keep_answer channel (clock w + ttl) cache o v).0 ≡ some (clean answer))
                × ((keep_answer channel (clock w + ttl) cache o v).1.1 ≡ v)
                × ((other : Text)
                    → Dict.lookup other (keep_answer channel (clock w + ttl) cache o v).1.0 ≡ (
                        if channel == other
                        then some (record { expires_at = clock w + ttl; cached = clean answer })
                        else Dict.lookup other cache)))
      by_answer none v = unfold keep_answer in inl (refl, refl)
      by_answer (some answer) v =
          unfold keep_answer in
          inr (answer, refl, refl, refl, λ other. Dict.lookup-insert channel other _ cache)

  -- Nothing that is kept was fetched more than `ttl` before it expires.
  pub record IsBounded (now : ℕ) (cache : Cache) : Type 0 where
    pub within :
        (channel : Text) (entry : Entry)
        → Dict.lookup channel cache ≡ some entry
        → entry.expires_at ≤ now + ttl

  keep_answer-IsBounded :
      (channel : Text) (t now : ℕ) (cache : Cache) (answer : Option (List Text)) (w : W)
      → t ≤ now
      → IsBounded t cache
      → IsBounded now (keep_answer channel (now + ttl) cache answer w).1.0
  unfolding keep_answer
  keep_answer-IsBounded channel t now cache none w le b = record {
    within = λ c e found. omega (arith, b.within c e found);
  }
  keep_answer-IsBounded channel t now cache (some answer) w le b = record {
    within = λ c e found.
        let entry : Entry = record { expires_at = now + ttl; cached = clean answer } in
        ground (arith, Dict.lookup-insert channel c entry cache, b.within c e);
  }

  -- Whatever is asked, and however the provider answers, no kept answer lives longer than `ttl`
  -- from the latest call.
  pub members-IsBounded :
      (channel : Text) (cache : Cache) (w : W) (t : ℕ)
      → t ≤ clock w
      → IsBounded t cache
      → IsBounded (clock w) (members channel (cache, w)).1.0
  members-IsBounded channel cache w t le b = elim (Option-cases (Dict.lookup channel cache)) [
    | inl missing ↦
        rw (members_stale channel cache w (λ e f. cc (missing, f)))
          (keep_answer-IsBounded channel t (clock w) cache _ _ le b)
    | inr (entry, found) ↦ elim (Bool-cases (ltb (clock w) entry.expires_at)) [
      | inl fresh ↦
          rw (members_cached channel cache w entry found (ground arith))
            (record { within = λ c e f. omega (arith, b.within c e f) })
      | inr stale ↦
          rw (members_stale channel cache w (λ e f. ground arith))
            (keep_answer-IsBounded channel t (clock w) cache _ _ le b)
    ]
  ]
