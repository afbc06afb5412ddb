-- ===== src/Text.antt =====
-- Python texts as lists of code points, with the methods that the program calls on them:
-- `strip`, `lower`, `split`, `join`. Above ASCII, `lower` reads a table of code points that is a
-- parameter; the one rule of Unicode that looks at the neighbours (the final sigma) is left out.
pub mod Search
pub mod Order
pub mod Slug
pub mod Samples
use Prim.Native.Char.{code}
use mathlib.Core.List.{append_assoc}
use the_watcher.Prelude.{
  ℕ, ◌+◌, ◌≤◌, ◌<◌, ◌≡◌, ◌≢◌, refl, ap, ◌∙◌, ◌⊎◌, inl, inr, String, Bool, true, false, not, ◌&&◌,
  ◌||◌,
}
use the_watcher.Prelude.{
  List, [], ◌∷◌, ◌++◌, arith, ltb, leb, nat_eq, if◌then◌else◌, All, every, Bool-cases,
}

abbrev pub Text : Type 0
Text = List ℕ

abbrev pub codes : String → Text
codes String.[] = []
codes (String.◌∷◌ c s) = code c ∷ codes s

-- `str.isspace`
unfoldable pub is_space : ℕ → Bool
is_space c =
    leb 9 c && leb c 13
    || leb 28 c && leb c 32
    || nat_eq c 133
    || nat_eq c 160
    || nat_eq c 5760
    || leb 8192 c && leb c 8202
    || nat_eq c 8232
    || nat_eq c 8233
    || nat_eq c 8239
    || nat_eq c 8287
    || nat_eq c 12288

unfoldable pub lstrip_if : (ℕ → Bool) → Text → Text
lstrip_if p [] = []
lstrip_if p (c ∷ t) = let rest = lstrip_if p t in if p c then rest else c ∷ t

drop_last : Bool → ℕ → Text → Text
drop_last b c [] = if b then [] else c ∷ []
drop_last b c (d ∷ t) = c ∷ d ∷ t

unfoldable pub rstrip_if : (ℕ → Bool) → Text → Text
unfolding drop_last
rstrip_if p [] = []
rstrip_if p (c ∷ t) = drop_last (p c) c (rstrip_if p t)

unfoldable pub strip_if : (ℕ → Bool) → Text → Text
unfolding lstrip_if rstrip_if
strip_if p t = lstrip_if p (rstrip_if p t)

abbrev pub is_empty : Text → Bool
is_empty [] = true
is_empty (c ∷ t) = false

-- `text.split(sep)` for a separator of one character: at least one piece.
unfoldable pub cons_first : ℕ → List Text → List Text
cons_first c [] = (c ∷ []) ∷ []
cons_first c (p ∷ ps) = (c ∷ p) ∷ ps

unfoldable pub split_on : ℕ → Text → List Text
unfolding cons_first
split_on sep [] = [] ∷ []
split_on sep (c ∷ t) =
    let rest = split_on sep t in if nat_eq c sep then [] ∷ rest else cons_first c rest

-- `sep.join(parts)`
unfoldable pub join_with : ℕ → List Text → Text
join_with sep [] = []
join_with sep (p ∷ []) = p
join_with sep (p ∷ q ∷ ps) = p ++ sep ∷ join_with sep (q ∷ ps)

-- A list of pieces that a join puts back together: one at least, and none holds the separator.
abbrev pub Lacks : ℕ → Text → Type 0
Lacks sep [] = Unit
Lacks sep (c ∷ t) = (c ≢ sep) × Lacks sep t

split_on_piece : (sep : ℕ) (p : Text) → Lacks sep p → split_on sep p ≡ p ∷ []
unfolding split_on
split_on_piece sep [] l = refl
split_on_piece sep (c ∷ p) l = ground (arith, split_on_piece sep p l.1)

split_on-append :
    (sep : ℕ) (p t : Text) → Lacks sep p → split_on sep (p ++ sep ∷ t) ≡ p ∷ split_on sep t
unfolding split_on
split_on-append sep [] t l = ground arith
split_on-append sep (c ∷ p) t l = ground (arith, split_on-append sep p t l.1)

pub split_on-join_with :
    (sep : ℕ) (p : Text) (ps : List Text)
    → All (Lacks sep) (p ∷ ps)
    → split_on sep (join_with sep (p ∷ ps)) ≡ p ∷ ps
unfolding join_with
split_on-join_with sep p [] l = split_on_piece sep p l.0
split_on-join_with sep p (q ∷ ps) l =
    ground
      (arith, split_on-append sep p (join_with sep (q ∷ ps)) l.0, split_on-join_with sep q ps l.1)

pub split_on-Lacks : (sep : ℕ) (t : Text) → All (Lacks sep) (split_on sep t)
unfolding split_on
split_on-Lacks sep [] = (tt, tt)
split_on-Lacks sep (c ∷ t) = ground (arith, split_on-Lacks sep t)

some_piece : (b : Bool) (c : ℕ) (ps : List Text) → (if b then [] ∷ ps else cons_first c ps) ≢ []
unfolding cons_first
some_piece true c ps h = cc h
some_piece false c [] h = cc h
some_piece false c (p ∷ ps) h = cc h

join_with-cons_first :
    (sep c : ℕ) (ps : List Text) → join_with sep (cons_first c ps) ≡ c ∷ join_with sep ps
unfolding cons_first join_with
join_with-cons_first sep c [] = refl
join_with-cons_first sep c (p ∷ []) = refl
join_with-cons_first sep c (p ∷ q ∷ ps) = refl

pub split_on_some : (sep : ℕ) (t : Text) → split_on sep t ≢ []
unfolding split_on
split_on_some sep [] h = cc h
split_on_some sep (c ∷ t) h = some_piece (nat_eq c sep) c (split_on sep t) h

join_with-nil :
    (sep : ℕ) (ps : List Text) → ps ≢ [] → join_with sep ([] ∷ ps) ≡ sep ∷ join_with sep ps
unfolding join_with
join_with-nil sep [] h = absurd (h refl)
join_with-nil sep (p ∷ ps) h = refl

join_with_single : (sep : ℕ) → join_with sep ([] ∷ []) ≡ []
unfolding join_with
join_with_single sep = refl

pub join_with-split_on : (sep : ℕ) (t : Text) → join_with sep (split_on sep t) ≡ t
unfolding split_on
join_with-split_on sep [] = join_with_single sep
join_with-split_on sep (c ∷ t) = elim (Bool-cases (nat_eq c sep)) [
  | inl e ↦ rw e (
      join_with-nil sep (split_on sep t) (split_on_some sep t)
      ∙ rw (join_with-split_on sep t) (ground (arith, e)))
  | inr e ↦
      rw e (join_with-cons_first sep c (split_on sep t) ∙ ap (◌∷◌ c) (join_with-split_on sep t))
]

unfoldable pub is_upper : ℕ → Bool
is_upper c = leb 65 c && leb c 90

-- What the table of Unicode gives above ASCII: at least one character, and each stays as it is.
pub record IsTable (fold : ℕ → Text) : Type 0 where
  pub some_char : (c : ℕ) → 128 ≤ c → fold c ≢ []
  pub settled :
      (c : ℕ) → 128 ≤ c → All (λ d. (97 ≤ d) × (d ≤ 122) ⊎ (128 ≤ d) × (fold d ≡ d ∷ [])) (fold c)

module _ (fold : ℕ → Text) where
  unfoldable pub lower_char : ℕ → Text
  unfolding is_upper
  lower_char c = if ltb c 128 then (if is_upper c then c + 32 else c) ∷ [] else fold c

  -- `text.lower()`
  unfoldable pub lower : Text → Text
  unfolding lower_char
  lower [] = []
  lower (c ∷ t) = lower_char c ++ lower t

  pub lower-append : (s t : Text) → lower (s ++ t) ≡ lower s ++ lower t
  unfolding lower
  lower-append [] t = refl
  lower-append (c ∷ s) t = rw (lower-append s t, append_assoc)
