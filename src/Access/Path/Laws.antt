-- ===== src/Access/Path/Laws.antt =====
-- A path that was normalised is its own normal form, so the checks that read it again agree.
use mathlib.Core.List.{append-nil}
use mathlib.Core.Option.{some-injective}
use the_watcher.Prelude.{
  ℕ, ◌+◌, ◌≤◌, ◌≡◌, ◌≢◌, refl, sym, ap, ◌∙◌, ◌⊎◌, inl, inr, Bool, true, false,
}
use the_watcher.Prelude.{some, List, [], ◌∷◌, ◌++◌, map, arith, ltb, nat_eq}
use the_watcher.Prelude.{
  has, keep_if, list_is_eq, nat_is_eq, Bool-cases, All, All-append, All-map_of,
}
use the_watcher.Prelude.{keep_if-All, has-All}
use the_watcher.Text.{
  Text, Lacks, is_empty, split_on, join_with, lower, lower_char, lower-append, IsTable,
}
use the_watcher.Text.{split_on-join_with}
use the_watcher.Access.Path.{
  forbidden, ends_in, bad_segment, clean_segment, segments, rejoin, normalize_path,
}
use the_watcher.Access.Path.Segments.{
  All-join_with, odd, Plain, Good, ends_in-dots, ends_in_one, bad_segment-Good, clean_segment-Good,
  segments-Good, odd_slash, segments-join_with, ends_in_none, ends_in-append, is_empty-append,
  Lacks-All, All-Lacks,
}

module _ (fold : ℕ → Text) (table : IsTable fold) where
  -- A character that lower case leaves alone.
  abbrev Settled : ℕ → Type 0
  Settled c = lower_char fold c ≡ c ∷ []

  fold-Settled : (d : ℕ) → (97 ≤ d) × (d ≤ 122) ⊎ (128 ≤ d) × (fold d ≡ d ∷ []) → Settled d
  unfolding lower_char
  fold-Settled d h = ground arith

  lower_char-Settled : (c : ℕ) → All Settled (lower_char fold c)
  unfolding lower_char
  lower_char-Settled c = elim (Bool-cases (ltb c 128)) [
    | inl low ↦ rw low (ground arith, tt)
    | inr high ↦
        rw high (All-map_of _ Settled (fold c) fold-Settled (table.settled c (ground arith)))
  ]

  lower-Settled : (t : Text) → All Settled (lower fold t)
  unfolding lower
  lower-Settled [] = tt
  lower-Settled (c ∷ t) =
      All-append Settled (lower_char fold c) (lower fold t) (lower_char-Settled c) (lower-Settled t)

  lower_stays : (t : Text) → All Settled t → lower fold t ≡ t
  unfolding lower
  lower_stays [] h = refl
  lower_stays (c ∷ t) h = rw (h.0, lower_stays t h.1)

  is_empty-lower_char : (c : ℕ) → is_empty (lower_char fold c) ≡ false
  unfolding lower_char
  is_empty-lower_char c = ground (arith, table.some_char c)

  -- What no small letter and nothing above ASCII is, lower case brings in nowhere.
  module _ (q : ℕ → Bool) (small : (c : ℕ) → 97 ≤ c → c ≤ 122 → q c ≡ false)
      (high : (c : ℕ) → 128 ≤ c → q c ≡ false) where
    lower_char-lacks : (c : ℕ) → q c ≡ false → All (λ d. q d ≡ false) (lower_char fold c)
    unfolding lower_char
    lower_char-lacks c h = elim (Bool-cases (ltb c 128)) [
      | inl low ↦ rw low (ground (arith, small (c + 32)), tt)
      | inr over ↦ rw over (
          All-map_of _ (λ d. q d ≡ false) (fold c) (λ d s. ground (arith, small d, high d))
            (table.settled c (ground arith)))
    ]

    lower-lacks : (t : Text) → All (λ c. q c ≡ false) t → All (λ c. q c ≡ false) (lower fold t)
    unfolding lower
    lower-lacks [] h = tt
    lower-lacks (c ∷ t) h =
        All-append (λ d. q d ≡ false) (lower_char fold c) (lower fold t) (lower_char-lacks c h.0)
          (lower-lacks t h.1)

  is_empty-lower : (t : Text) → is_empty t ≡ false → is_empty (lower fold t) ≡ false
  unfolding lower
  is_empty-lower [] h = cc
  is_empty-lower (c ∷ t) h =
      is_empty-append (lower_char fold c) (lower fold t) (is_empty-lower_char c)

  ends_in-lower :
      (d : ℕ)
      → ((c : ℕ) → 97 ≤ c → c ≤ 122 → nat_eq c d ≡ false)
      → ((c : ℕ) → 128 ≤ c → nat_eq c d ≡ false)
      → (t : Text) → ends_in d t ≡ false
      → ends_in d (lower fold t) ≡ false
  unfolding ends_in lower
  ends_in-lower d small high [] h = refl
  ends_in-lower d small high (c ∷ []) h =
      rw append-nil (ends_in_none d _ (lower_char-lacks (λ x. nat_eq x d) small high c h))
  ends_in-lower d small high (c ∷ b ∷ t) h =
      ends_in-append d (lower_char fold c) (lower fold (b ∷ t)) (is_empty-lower (b ∷ t) refl)
      ∙ ends_in-lower d small high (b ∷ t) h

  lower-Good : (seg : Text) → Good seg → Good (lower fold seg)
  unfolding forbidden
  lower-Good seg g = record {
    filled = is_empty-lower seg g.filled;
    lacks = Lacks-All 47 _ (
        lower-lacks (λ c. nat_eq c 47) (λ c a b. ground arith) (λ c a. ground arith) seg
          (All-Lacks 47 seg g.lacks));
    plain = lower-lacks odd (λ c a b. ground arith) (λ c a. ground arith) seg g.plain;
    no_dot = ends_in-lower 46 (λ c a b. ground arith) (λ c a. ground arith) seg g.no_dot;
    no_space = ends_in-lower 32 (λ c a b. ground arith) (λ c a. ground arith) seg g.no_space;
  }

  All-lower-Good : (ps : List Text) → All Good ps → All Good (map (lower fold) ps)
  All-lower-Good [] g = tt
  All-lower-Good (p ∷ ps) g = (lower-Good p g.0, All-lower-Good ps g.1)

  lower-join_with :
      (ps : List Text) → lower fold (join_with 47 ps) ≡ join_with 47 (map (lower fold) ps)
  unfolding join_with lower lower_char
  lower-join_with [] = refl
  lower-join_with (p ∷ []) = refl
  lower-join_with (p ∷ q ∷ ps) =
      lower-append fold p (47 ∷ join_with 47 (q ∷ ps))
      ∙ ap (λ t. lower fold p ++ 47 ∷ t) (lower-join_with (q ∷ ps))

  normalize_path-Good :
      (p : Text) (ps : List Text)
      → All Good (p ∷ ps)
      → All Settled (join_with 47 (p ∷ ps))
      → normalize_path fold (join_with 47 (p ∷ ps)) ≡ some (join_with 47 (p ∷ ps))
  unfolding normalize_path
  normalize_path-Good p ps g settled =
      rw
        (
          has-All forbidden (join_with 47 (p ∷ ps)) (
              All-map_of (λ c. odd c ≡ false) (λ c. forbidden c ≡ false) (join_with 47 (p ∷ ps))
                (λ c h. ground arith)
                (All-join_with _ 47 (p ∷ ps) odd_slash
                  (All-map_of Good Plain (p ∷ ps) (λ seg h. h.plain) g))),
          segments-join_with p ps g,
          has-All bad_segment (p ∷ ps)
              (All-map_of Good (λ seg. bad_segment seg ≡ false) (p ∷ ps) bad_segment-Good g),
          keep_if-All clean_segment (p ∷ ps)
              (All-map_of Good (λ seg. clean_segment seg ≡ true) (p ∷ ps) clean_segment-Good g),
        )
        (ap some (lower_stays (join_with 47 (p ∷ ps)) settled))

  -- What an accepted path has become: nothing, or good segments in lower case with slashes between.
  normalize_path-inverts :
      (path norm : Text)
      → normalize_path fold path ≡ some norm
      → (norm ≡ [])
        ⊎ ((p : Text) × (ps : List Text) × All Good (p ∷ ps)
            × (norm ≡ join_with 47 (p ∷ ps))
            × All Settled norm)
  unfolding normalize_path
  normalize_path-inverts path norm h = elim (Bool-cases (has forbidden path)) [
    | inl refused ↦ ground arith
    | inr fine ↦ elim (Bool-cases (has bad_segment (segments path))) [
      | inl refused ↦ ground arith
      | inr ends ↦
          let good : All Good (segments path) = segments-Good path fine ends in
          rejoined (segments path) good (
            ap (rejoin fold) (
              sym (
                keep_if-All clean_segment (segments path) (
                  All-map_of Good (λ seg. clean_segment seg ≡ true) (segments path)
                    clean_segment-Good good)))
            ∙ some-injective _ _ (rw (fine, ends) at h))
    ]
  ]
    where
      rejoined :
          (ps : List Text)
          → All Good ps
          → rejoin fold ps ≡ norm
          → (norm ≡ [])
            ⊎ ((p : Text) × (qs : List Text) × All Good (p ∷ qs)
                × (norm ≡ join_with 47 (p ∷ qs))
                × All Settled norm)
      rejoined [] g e = inl (sym e)
      rejoined (p ∷ ps) g e = inr (
        lower fold p,
        map (lower fold) ps,
        All-lower-Good (p ∷ ps) g,
        sym e ∙ lower-join_with (p ∷ ps),
        rw (← e) (lower-Settled (join_with 47 (p ∷ ps))),
      )

  -- The normal form of an accepted path is accepted and is its own normal form, so whoever
  -- normalises it again reads the same path.
  pub normalize_path_idempotent :
      (path norm : Text)
      → normalize_path fold path ≡ some norm
      → normalize_path fold norm ≡ some norm
  normalize_path_idempotent path norm h = elim (normalize_path-inverts path norm h) [
    | inl e ↦ rw e (unfold normalize_path keep_if in refl)
    | inr (p, ps, g, e, settled) ↦ rw e (normalize_path-Good p ps g (rw e at settled))
  ]

-- A segment that can name nothing but an entry of the directory that it stands in.
abbrev pub IsSafe : Text → Type 0
IsSafe seg =
    (seg ≢ [])
    × (seg ≢ 46 ∷ [])
    × (seg ≢ 46 ∷ 46 ∷ [])
    × (ends_in 46 seg ≡ false)
    × (ends_in 32 seg ≡ false)
    × All (λ c. (forbidden c ≡ false) × (c ≢ 92)) seg

Good-IsSafe : (seg : Text) → Good seg → IsSafe seg
Good-IsSafe seg g = (
  λ e. cc (g.filled, ap is_empty e),
  λ e. cc (g.no_dot, ends_in_one seg e),
  λ e. cc (g.no_dot, ends_in-dots seg e),
  g.no_dot,
  g.no_space,
  All-map_of (λ c. odd c ≡ false) (λ c. (forbidden c ≡ false) × (c ≢ 92)) seg (λ c h. ground arith)
      g.plain,
)

-- Of an accepted path nothing is left, or each segment between its slashes is safe: not empty, not
-- `.` or `..`, with no dot or space at its end, and without a backslash, a percent sign, a colon
-- or a control character.
pub normalize_path-IsSafe :
    (fold : ℕ → Text)
    → IsTable fold
    → (path norm : Text) → normalize_path fold path ≡ some norm
    → (norm ≡ []) ⊎ All IsSafe (split_on 47 norm)
normalize_path-IsSafe fold table path norm h =
    elim (normalize_path-inverts fold table path norm h) [
      | inl e ↦ inl e
      | inr (p, ps, g, e, settled) ↦ inr (
          rw
            (
              e,
              split_on-join_with 47 p ps (All-map_of Good (Lacks 47) (p ∷ ps) (λ seg h. h.lacks) g),
            )
            (All-map_of Good IsSafe (p ∷ ps) Good-IsSafe g))
    ]
