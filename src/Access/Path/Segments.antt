-- ===== src/Access/Path/Segments.antt =====
-- The segments of a normalised path: what the replacing, stripping and joining of them keeps.
use the_watcher.Prelude.{ℕ, ◌≡◌, refl, inl, inr, Bool, true, false, not, ◌||◌}
use the_watcher.Prelude.{List, [], ◌∷◌, ◌++◌, map, arith, nat_eq}
use the_watcher.Prelude.{
  has, list_is_eq, nat_is_eq, list_eq_iff, Bool-cases, All, All-append, All-keep_if, All-map_of,
}
use the_watcher.Prelude.{All-keep_if_test, keep_if-All, All-has}
use the_watcher.Text.{Text, Lacks, is_empty, split_on, cons_first, join_with}
use the_watcher.Text.{split_on-join_with, split_on-Lacks}
use the_watcher.Access.Path.{
  forbidden, to_slash, ends_in, bad_segment, clean_segment, segments, dots,
}

module _ {κ} (P : ℕ → Type κ) where
  All-cons_first : (c : ℕ) (ps : List Text) → P c → All (All P) ps → All (All P) (cons_first c ps)
  unfolding cons_first
  All-cons_first c [] h hs = ((h, tt), tt)
  All-cons_first c (p ∷ ps) h hs = ((h, hs.0), hs.1)

  All-split_on : (sep : ℕ) (t : Text) → All P t → All (All P) (split_on sep t)
  unfolding split_on
  All-split_on sep [] h = (tt, tt)
  All-split_on sep (c ∷ t) h = elim (Bool-cases (nat_eq c sep)) [
    | inl e ↦ rw e (tt, All-split_on sep t h.1)
    | inr e ↦ rw e (All-cons_first c _ h.0 (All-split_on sep t h.1))
  ]

  pub All-join_with : (sep : ℕ) (ps : List Text) → P sep → All (All P) ps → All P (join_with sep ps)
  unfolding join_with
  All-join_with sep [] h hs = tt
  All-join_with sep (p ∷ []) h hs = hs.0
  All-join_with sep (p ∷ q ∷ ps) h hs =
      All-append P p (sep ∷ join_with sep (q ∷ ps)) hs.0 (h, All-join_with sep (q ∷ ps) h hs.1)

-- What a character of a normalised path is not.
abbrev pub odd : ℕ → Bool
odd c = forbidden c || nat_eq c 92

abbrev pub Plain : Text → Type 0
Plain = All (λ c. odd c ≡ false)

to_slash-plain : (c : ℕ) → forbidden c ≡ false → odd (to_slash c) ≡ false
unfolding to_slash forbidden
to_slash-plain c h = ground arith

map-to_slash-Plain : (t : Text) → All (λ c. forbidden c ≡ false) t → Plain (map to_slash t)
map-to_slash-Plain [] h = tt
map-to_slash-Plain (c ∷ t) h = (to_slash-plain c h.0, map-to_slash-Plain t h.1)

to_slash_same : (c : ℕ) → odd c ≡ false → to_slash c ≡ c
unfolding to_slash
to_slash_same c h = ground arith

map-to_slash_same : (t : Text) → Plain t → map to_slash t ≡ t
map-to_slash_same [] h = refl
map-to_slash_same (c ∷ t) h = cc (to_slash_same c h.0, map-to_slash_same t h.1)

-- A segment that the checks let pass.
pub record Good (seg : Text) : Type 0 where
  pub filled : is_empty seg ≡ false
  pub lacks : Lacks 47 seg
  pub plain : Plain seg
  pub no_dot : ends_in 46 seg ≡ false
  pub no_space : ends_in 32 seg ≡ false

bad_segment_parts :
    (seg : Text) → bad_segment seg ≡ false → (ends_in 46 seg ≡ false) × (ends_in 32 seg ≡ false)
unfolding bad_segment
bad_segment_parts seg h = ground arith

pub ends_in-dots : (seg : Text) → seg ≡ dots → ends_in 46 seg ≡ true
unfolding ends_in
ends_in-dots seg e = rw e refl

pub ends_in_one : (seg : Text) → seg ≡ 46 ∷ [] → ends_in 46 seg ≡ true
unfolding ends_in
ends_in_one seg e = rw e refl

pub bad_segment-Good : (seg : Text) → Good seg → bad_segment seg ≡ false
unfolding bad_segment
bad_segment-Good seg g =
    ground (arith, list_eq_iff seg dots, ends_in-dots seg, g.no_dot, g.no_space)

pub clean_segment-Good : (seg : Text) → Good seg → clean_segment seg ≡ true
unfolding clean_segment
clean_segment-Good seg g = ground (arith, list_eq_iff seg (46 ∷ []), ends_in_one seg, g.no_dot)

pub segments-Good :
    (path : Text)
    → has forbidden path ≡ false
    → has bad_segment (segments path) ≡ false
    → All Good (segments path)
unfolding segments
segments-Good path fine ends =
    let pieces = split_on 47 (map to_slash path) in
    All-zip (segments path) (All-keep_if_test (λ seg. not (is_empty seg)) pieces)
      (All-keep_if (Lacks 47) _ pieces (split_on-Lacks 47 (map to_slash path)))
      (All-keep_if Plain _ pieces (
        All-split_on _ 47 (map to_slash path)
          (map-to_slash-Plain path (All-has forbidden path fine))))
      (All-has bad_segment (segments path) ends)
  where
    All-zip :
        (segs : List Text)
        → All (λ seg. not (is_empty seg) ≡ true) segs
        → All (Lacks 47) segs
        → All Plain segs
        → All (λ seg. bad_segment seg ≡ false) segs
        → All Good segs
    All-zip [] a b c d = tt
    All-zip (seg ∷ segs) a b c d = (
      record {
        filled = ground (arith, a.0);
        lacks = b.0;
        plain = c.0;
        no_dot = (bad_segment_parts seg d.0).0;
        no_space = (bad_segment_parts seg d.0).1;
      },
      All-zip segs a.1 b.1 c.1 d.1,
    )

pub odd_slash : odd 47 ≡ false
unfolding forbidden
odd_slash = refl

-- Good segments, joined, come apart again.
pub segments-join_with :
    (p : Text) (ps : List Text) → All Good (p ∷ ps) → segments (join_with 47 (p ∷ ps)) ≡ p ∷ ps
unfolding segments
segments-join_with p ps g =
    rw
      (
        map-to_slash_same (join_with 47 (p ∷ ps)) (
            All-join_with _ 47 (p ∷ ps) odd_slash
              (All-map_of Good Plain (p ∷ ps) (λ seg h. h.plain) g)),
        split_on-join_with 47 p ps (All-map_of Good (Lacks 47) (p ∷ ps) (λ seg h. h.lacks) g),
      )
      (keep_if-All _ (p ∷ ps) (
        All-map_of Good (λ seg. not (is_empty seg) ≡ true) (p ∷ ps)
          (λ seg h. ground (arith, h.filled)) g))

-- Without an end that a check looks for, no such character is at the end.
pub ends_in_none : (d : ℕ) (t : Text) → All (λ c. nat_eq c d ≡ false) t → ends_in d t ≡ false
unfolding ends_in
ends_in_none d [] h = refl
ends_in_none d (c ∷ []) h = h.0
ends_in_none d (c ∷ b ∷ t) h = ends_in_none d (b ∷ t) h.1

pub ends_in-append : (d : ℕ) (s t : Text) → is_empty t ≡ false → ends_in d (s ++ t) ≡ ends_in d t
unfolding ends_in
ends_in-append d [] t h = refl
ends_in-append d (c ∷ []) [] h = cc
ends_in-append d (c ∷ []) (b ∷ t) h = refl
ends_in-append d (c ∷ b ∷ s) t h = ends_in-append d (b ∷ s) t h

pub is_empty-append : (s t : Text) → is_empty s ≡ false → is_empty (s ++ t) ≡ false
is_empty-append [] t h = cc
is_empty-append (c ∷ s) t h = refl

pub Lacks-All : (sep : ℕ) (t : Text) → All (λ c. nat_eq c sep ≡ false) t → Lacks sep t
Lacks-All sep [] h = tt
Lacks-All sep (c ∷ t) h = (ground (arith, h.0), Lacks-All sep t h.1)

pub All-Lacks : (sep : ℕ) (t : Text) → Lacks sep t → All (λ c. nat_eq c sep ≡ false) t
All-Lacks sep [] h = tt
All-Lacks sep (c ∷ t) h = (ground (arith, h.0), All-Lacks sep t h.1)
