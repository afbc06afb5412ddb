-- ===== src/Wiki/Neutralise/Laws.antt =====
-- What holds of every line of a neutralised text.
use the_watcher.Prelude.{ℕ, zero, suc, ◌≡◌, ◌≢◌, refl, ◌∙◌, false, inl, inr}
use the_watcher.Prelude.{List, [], ◌∷◌, map, arith, Bool-cases, All}
use the_watcher.Text.{
  Text, is_space, split_on, join_with, Lacks, split_on-Lacks, split_on-join_with, split_on_some,
  join_with-split_on,
}
use the_watcher.Wiki.Neutralise.{
  opens_heading, escape_heading, is_heading, defang, neutral_line, neutralise, Inert,
}
use the_watcher.Wiki.Neutralise.Defang.{defang-Unmarked, defang_plain, is_heading-defang}

backslash_is_no_space : is_space 92 ≡ false
unfolding is_space
backslash_is_no_space = refl

escaped_sign : (n : ℕ) (t : Text) → is_heading n (92 ∷ t) ≡ false
unfolding is_heading opens_heading
escaped_sign zero t = refl
escaped_sign (suc n) t = rw backslash_is_no_space refl

is_heading-escape_heading : (n : ℕ) (t : Text) → is_heading n (escape_heading n t) ≡ false
unfolding escape_heading is_heading
is_heading-escape_heading zero [] = refl
is_heading-escape_heading (suc n) [] = refl
is_heading-escape_heading zero (c ∷ t) = elim (Bool-cases (opens_heading (c ∷ t))) [
  | inl e ↦ rw e (escaped_sign zero (c ∷ t))
  | inr e ↦ rw e e
]
is_heading-escape_heading (suc n) (c ∷ t) = elim (Bool-cases (is_space c)) [
  | inl s ↦ rw (s, s) (is_heading-escape_heading n t)
  | inr s ↦ elim (Bool-cases (opens_heading (c ∷ t))) [
    | inl e ↦ rw (s, e) (escaped_sign (suc n) (c ∷ t))
    | inr e ↦ rw (s, e, s) e
  ]
]

escape_heading_plain : (n : ℕ) (t : Text) → is_heading n t ≡ false → escape_heading n t ≡ t
unfolding escape_heading is_heading
escape_heading_plain zero [] h = refl
escape_heading_plain (suc n) [] h = refl
escape_heading_plain zero (c ∷ t) h = rw h refl
escape_heading_plain (suc n) (c ∷ t) h = ground (arith, escape_heading_plain n t)

escape_heading-Lacks : (n : ℕ) (t : Text) → Lacks 10 t → Lacks 10 (escape_heading n t)
unfolding escape_heading
escape_heading-Lacks zero [] l = l
escape_heading-Lacks (suc n) [] l = l
escape_heading-Lacks zero (c ∷ t) l = ground arith
escape_heading-Lacks (suc n) (c ∷ t) l = ground (arith, escape_heading-Lacks n t l.1)

defang-Lacks : (t : Text) → Lacks 10 t → Lacks 10 (defang t)
unfolding defang
defang-Lacks [] l = l
defang-Lacks (c ∷ t) l = ground (arith, defang-Lacks t l.1)

neutral_line-Inert : (line : Text) → Inert (neutral_line line)
unfolding Inert neutral_line
neutral_line-Inert line = (
  is_heading-defang 3 (escape_heading 3 line) ∙ is_heading-escape_heading 3 line,
  defang-Unmarked (escape_heading 3 line),
)

neutral_line_plain : (line : Text) → Inert line → neutral_line line ≡ line
unfolding Inert neutral_line
neutral_line_plain line h = rw (escape_heading_plain 3 line h.0) (defang_plain line h.1)

All-neutral_line : (lines : List Text) → All Inert (map neutral_line lines)
All-neutral_line [] = tt
All-neutral_line (l ∷ lines) = (neutral_line-Inert l, All-neutral_line lines)

map_plain : (lines : List Text) → All Inert lines → map neutral_line lines ≡ lines
map_plain [] h = refl
map_plain (l ∷ lines) h = rw (neutral_line_plain l h.0, map_plain lines h.1) refl

map-Lacks : (lines : List Text) → All (Lacks 10) lines → All (Lacks 10) (map neutral_line lines)
unfolding neutral_line
map-Lacks [] h = tt
map-Lacks (l ∷ lines) h =
    (defang-Lacks (escape_heading 3 l) (escape_heading-Lacks 3 l h.0), map-Lacks lines h.1)

lines_back :
    (lines : List Text)
    → All (Lacks 10) lines
    → lines ≢ []
    → split_on 10 (join_with 10 (map neutral_line lines)) ≡ map neutral_line lines
lines_back [] h some_line = absurd (some_line refl)
lines_back (l ∷ lines) h some_line =
    split_on-join_with 10 (neutral_line l) (map neutral_line lines) (map-Lacks (l ∷ lines) h)

-- The lines of a neutralised text are the neutralised lines.
pub split_on-neutralise :
    (text : Text) → split_on 10 (neutralise text) ≡ map neutral_line (split_on 10 text)
unfolding neutralise
split_on-neutralise text =
    lines_back (split_on 10 text) (split_on-Lacks 10 text) (split_on_some 10 text)

-- Whatever the text: no line of the neutralised one is a heading, and none holds a fence marker.
pub neutralise-Inert : (text : Text) → All Inert (split_on 10 (neutralise text))
neutralise-Inert text = rw (split_on-neutralise text) (All-neutral_line (split_on 10 text))

-- Text whose lines are inert is kept as it is; so neutralising twice is neutralising once.
pub neutralise_plain : (text : Text) → All Inert (split_on 10 text) → neutralise text ≡ text
unfolding neutralise
neutralise_plain text h = rw (map_plain (split_on 10 text) h) (join_with-split_on 10 text)

-- Neutralising twice is neutralising once.
pub neutralise_idempotent : (text : Text) → neutralise (neutralise text) ≡ neutralise text
neutralise_idempotent text = neutralise_plain (neutralise text) (neutralise-Inert text)
