-- ===== src/Text/Slug.antt =====
-- `slugify` (shared/wiki/templates.py): what a slug looks like, and that a slug is its own slug.
use the_watcher.Prelude.{
  ℕ, zero, suc, ◌≤◌, ◌≡◌, refl, ap, ◌⊎◌, inl, inr, Bool, true, false, not, ◌&&◌, ◌||◌,
}
use the_watcher.Prelude.{[], ◌∷◌, arith, leb, nat_eq, if◌then◌else◌, length, take, length-take}
use the_watcher.Text.{Text, codes, is_space, lstrip_if, rstrip_if, drop_last, strip_if, lower}

abbrev pub slug_max_len : ℕ
slug_max_len = 80

unfoldable pub is_alnum : ℕ → Bool
is_alnum c = leb 97 c && leb c 122 || leb 48 c && leb c 57

abbrev pub is_dash : ℕ → Bool
is_dash c = nat_eq c 45

-- `re.sub(r"[^a-z0-9]+", "-", text)`; the flag says that the run has its dash already.
unfoldable pub dash_runs : Bool → Text → Text
unfolding is_alnum
dash_runs in_run [] = []
dash_runs in_run (c ∷ t) =
    let alnum = is_alnum c in
    let rest = dash_runs (not alnum) t in
    if alnum then c ∷ rest else if in_run then rest else 45 ∷ rest

abbrev or_untitled : Text → Text
or_untitled [] = codes "untitled"
or_untitled (c ∷ t) = c ∷ t

module _ (fold : ℕ → Text) where
  unfoldable pub slugify : Text → Text
  unfolding dash_runs is_space strip_if lower
  slugify title =
      let slug = strip_if is_dash (dash_runs false (lower fold (strip_if is_space title))) in
      or_untitled (rstrip_if is_dash (take slug_max_len slug))

-- Letters and digits joined by single dashes. The flag says that a letter or digit must come next.
unfoldable pub slug_from : Bool → Text → Bool
unfolding is_alnum
slug_from due [] = not due
slug_from due (c ∷ t) = is_alnum c && slug_from false t || is_dash c && not due && slug_from true t

pub record IsSlug (t : Text) : Type 0 where
  pub shape : slug_from true t ≡ true
  pub short : length t ≤ slug_max_len

-- The same, but a dash may stand at the end.
open_from : Bool → Text → Bool
unfolding is_alnum
open_from due [] = true
open_from due (c ∷ t) = is_alnum c && open_from false t || is_dash c && not due && open_from true t

open_from-dash_runs : (in_run : Bool) (t : Text) → open_from in_run (dash_runs in_run t) ≡ true
unfolding open_from dash_runs
open_from-dash_runs in_run [] = refl
open_from-dash_runs in_run (c ∷ t) =
    ground (arith, open_from-dash_runs true t, open_from-dash_runs false t)

open_from-lstrip_if :
    (t : Text) → open_from false t ≡ true → open_from true (lstrip_if is_dash t) ≡ true
unfolding open_from lstrip_if
open_from-lstrip_if [] h = refl
open_from-lstrip_if (c ∷ []) h = ground arith
open_from-lstrip_if (c ∷ d ∷ t) h = ground arith

open_from-take :
    (due : Bool) (n : ℕ) (t : Text) → open_from due t ≡ true → open_from due (take n t) ≡ true
unfolding open_from
open_from-take due zero t h = refl
open_from-take due (suc n) [] h = refl
open_from-take due (suc n) (c ∷ t) h =
    ground (arith, open_from-take false n t, open_from-take true n t)

open_from-rstrip_if :
    (due : Bool) (t : Text) → open_from due t ≡ true → open_from due (rstrip_if is_dash t) ≡ true
unfolding open_from rstrip_if
open_from-rstrip_if due [] h = refl
open_from-rstrip_if due (c ∷ t) h =
    ground (arith, open_from-rstrip_if false t, open_from-rstrip_if true t)

-- Once the end is stripped, nothing is left or the shape is that of a slug.
slug_from-rstrip_if :
    (due : Bool) (t : Text)
    → open_from due t ≡ true
    → (rstrip_if is_dash t ≡ []) ⊎ (slug_from due (rstrip_if is_dash t) ≡ true)
unfolding open_from slug_from rstrip_if
slug_from-rstrip_if due [] h = inl refl
slug_from-rstrip_if due (c ∷ t) h =
    ground (arith, slug_from-rstrip_if false t, slug_from-rstrip_if true t)

length-rstrip_if : (p : ℕ → Bool) (t : Text) → length (rstrip_if p t) ≤ length t
unfolding rstrip_if
length-rstrip_if p [] = omega arith
length-rstrip_if p (c ∷ t) = ground (arith, length-rstrip_if p t)

length-lstrip_if : (p : ℕ → Bool) (t : Text) → length (lstrip_if p t) ≤ length t
unfolding lstrip_if
length-lstrip_if p [] = omega arith
length-lstrip_if p (c ∷ t) = ground (arith, length-lstrip_if p t)

or_untitled-IsSlug :
    (t : Text)
    → (t ≡ []) ⊎ (slug_from true t ≡ true)
    → length t ≤ slug_max_len
    → IsSlug (or_untitled t)
unfolding slug_from
or_untitled-IsSlug [] h le = record { shape = refl; short = omega arith }
or_untitled-IsSlug (c ∷ t) h le = record { shape = ground arith; short = le }

slug_from_tail :
    (due : Bool) (c : ℕ) (t : Text)
    → slug_from due (c ∷ t) ≡ true
    → (is_alnum c ≡ true) × (slug_from false t ≡ true) ⊎ (slug_from true t ≡ true)
unfolding slug_from
slug_from_tail due c t h = ground arith

drop_last_misses : (b : Bool) (c : ℕ) (t : Text) → b ≡ false → drop_last b c t ≡ c ∷ t
unfolding drop_last
drop_last_misses b c [] h = ground arith
drop_last_misses b c (d ∷ t) h = refl

drop_last-slug : (b : Bool) (c : ℕ) (t : Text) → slug_from true t ≡ true → drop_last b c t ≡ c ∷ t
unfolding drop_last slug_from
drop_last-slug b c [] h = cc
drop_last-slug b c (d ∷ t) h = refl

module _ (p : ℕ → Bool) (misses : (c : ℕ) → is_alnum c ≡ true → p c ≡ false) where
  rstrip_if-slug : (due : Bool) (t : Text) → slug_from due t ≡ true → rstrip_if p t ≡ t
  unfolding rstrip_if
  rstrip_if-slug due [] h = refl
  rstrip_if-slug due (c ∷ t) h = elim (slug_from_tail due c t h) [
    | inl (alnum, more) ↦
        rw (rstrip_if-slug false t more) (drop_last_misses (p c) c t (misses c alnum))
    | inr more ↦ rw (rstrip_if-slug true t more) (drop_last-slug (p c) c t more)
  ]

  lstrip_if-slug : (t : Text) → slug_from true t ≡ true → lstrip_if p t ≡ t
  unfolding slug_from lstrip_if
  lstrip_if-slug [] h = refl
  lstrip_if-slug (c ∷ t) h = ground (arith, misses c)

  strip_if-slug : (t : Text) → slug_from true t ≡ true → strip_if p t ≡ t
  unfolding strip_if
  strip_if-slug t h = rw (rstrip_if-slug true t h) (lstrip_if-slug t h)

is_space-alnum : (c : ℕ) → is_alnum c ≡ true → is_space c ≡ false
unfolding is_alnum is_space
is_space-alnum c h = ground arith

is_dash-alnum : (c : ℕ) → is_alnum c ≡ true → is_dash c ≡ false
unfolding is_alnum
is_dash-alnum c h = ground arith

dash_runs-slug : (due : Bool) (t : Text) → slug_from due t ≡ true → dash_runs due t ≡ t
unfolding slug_from dash_runs
dash_runs-slug due [] h = refl
dash_runs-slug due (c ∷ t) h = ground (arith, dash_runs-slug false t, dash_runs-slug true t)

slug_from_weaken : (t : Text) → slug_from true t ≡ true → slug_from false t ≡ true
unfolding slug_from
slug_from_weaken [] h = refl
slug_from_weaken (c ∷ t) h = ground arith

take_all : (n : ℕ) (t : Text) → length t ≤ n → take n t ≡ t
take_all zero [] h = refl
take_all zero (c ∷ t) h = absurd (omega arith)
take_all (suc n) [] h = refl
take_all (suc n) (c ∷ t) h = ap (λ (u : Text). c ∷ u) (take_all n t (omega arith))

or_untitled-slug : (t : Text) → slug_from true t ≡ true → or_untitled t ≡ t
unfolding slug_from
or_untitled-slug [] h = cc
or_untitled-slug (c ∷ t) h = refl

module _ (fold : ℕ → Text) where
  lower-slug : (due : Bool) (t : Text) → slug_from due t ≡ true → lower fold t ≡ t
  unfolding slug_from lower
  lower-slug due [] h = refl
  lower-slug due (c ∷ t) h = ground (arith, lower-slug false t, lower-slug true t)

  -- Every title has a slug of one to eighty characters, lower-case letters and digits joined by
  -- single dashes, whatever the table of lower case gives above ASCII.
  pub slugify-IsSlug : (title : Text) → IsSlug (slugify fold title)
  unfolding slugify strip_if
  slugify-IsSlug title =
      let runs = dash_runs false (lower fold (strip_if is_space title)) in
      let slug = lstrip_if is_dash (rstrip_if is_dash runs) in
      or_untitled-IsSlug (rstrip_if is_dash (take slug_max_len slug))
        (slug_from-rstrip_if true (take slug_max_len slug) (
          open_from-take true slug_max_len slug (
            open_from-lstrip_if _ (
              open_from-rstrip_if false runs
                (open_from-dash_runs false (lower fold (strip_if is_space title)))))))
        (omega
          (arith, length-rstrip_if is_dash (take slug_max_len slug), length-take slug_max_len slug))

  -- A slug is its own slug.
  pub slugify-slug : (t : Text) → IsSlug t → slugify fold t ≡ t
  unfolding slugify
  slugify-slug t s =
      rw
        (
          strip_if-slug is_space is_space-alnum t s.shape,
          lower-slug true t s.shape,
          dash_runs-slug false t (slug_from_weaken t s.shape),
          strip_if-slug is_dash is_dash-alnum t s.shape,
          take_all slug_max_len t s.short,
          rstrip_if-slug is_dash is_dash-alnum true t s.shape,
        )
        (or_untitled-slug t s.shape)
