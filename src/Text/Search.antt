-- ===== src/Text/Search.antt =====
-- Looking for a text in another: `startswith`, `find`, and cutting at the first occurrence.
use the_watcher.Prelude.{ℕ, ◌≡◌, refl, ap, Bool, true, false, ◌&&◌, ◌||◌, Option, none, some}
use the_watcher.Prelude.{
  [], ◌∷◌, ◌++◌, arith, nat_eq, if◌then◌else◌, Bool-cases, inl, inr, length, drop, ◌==◌, nat_is_eq,
  list_is_eq,
}
use the_watcher.Text.{Text, is_empty}

-- `t.startswith(p)`
unfoldable pub starts_with : Text → Text → Bool
starts_with [] t = true
starts_with (c ∷ p) [] = false
starts_with (c ∷ p) (d ∷ t) = nat_eq c d && starts_with p t

-- `t.endswith(end)`
unfoldable pub ends_with : Text → Text → Bool
ends_with [] end = is_empty end
ends_with (c ∷ t) end = (c ∷ t) == end || ends_with t end

unfoldable pub after_char : ℕ → Option (Text × Text) → Option (Text × Text)
after_char c none = none
after_char c (some (before, rest)) = some (c ∷ before, rest)

-- The text before the first occurrence of `p` and the text from there, if there is one.
unfoldable pub cut_at : Text → Text → Option (Text × Text)
cut_at p [] = if starts_with p [] then some ([], []) else none
cut_at p (c ∷ t) =
    let rest = cut_at p t in if starts_with p (c ∷ t) then some ([], c ∷ t) else after_char c rest

-- `p` stands nowhere in the text.
abbrev pub Without : Text → Text → Type 0
Without p [] = starts_with p [] ≡ false
Without p (c ∷ t) = (starts_with p (c ∷ t) ≡ false) × Without p t

pub starts_with-drop : (p t : Text) → starts_with p t ≡ true → p ++ drop (length p) t ≡ t
unfolding starts_with
starts_with-drop [] t h = refl
starts_with-drop (c ∷ p) [] h = ground (arith, h)
starts_with-drop (c ∷ p) (d ∷ t) h = ground (arith, h, starts_with-drop p t)

-- The pieces of a text cut in two make the text.
abbrev pub Halves : Text → Option (Text × Text) → Type 0
Halves t none = Unit
Halves t (some (a, b)) = a ++ b ≡ t

pub after_char-Halves :
    (c : ℕ) (t : Text) (o : Option (Text × Text)) → Halves t o → Halves (c ∷ t) (after_char c o)
unfolding after_char
after_char-Halves c t none h = tt
after_char-Halves c t (some (a, b)) h = ap (◌∷◌ c) h

pub cut_at-Halves : (p t : Text) → Halves t (cut_at p t)
unfolding cut_at
cut_at-Halves p [] = elim (Bool-cases (starts_with p [])) [ inl e ↦ rw e refl | inr e ↦ rw e tt ]
cut_at-Halves p (c ∷ t) = elim (Bool-cases (starts_with p (c ∷ t))) [
  | inl e ↦ rw e refl
  | inr e ↦ rw e (after_char-Halves c t (cut_at p t) (cut_at-Halves p t))
]
