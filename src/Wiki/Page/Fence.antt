-- ===== src/Wiki/Page/Fence.antt =====
-- Where the fence of a section is: between its first opening mark and the first closing one.
use mathlib.Core.List.{append_assoc, append-nil}
use mathlib.Core.Path.{subst}
use the_watcher.Prelude.{
  ℕ, ◌≡◌, refl, ap, sym, ◌∙◌, ◌⊎◌, inl, inr, Bool, true, false, All, Option, none, some, [], ◌∷◌,
  ◌++◌, Bool-cases, drop, contains, nat_is_eq, list_is_eq, ◌||◌,
}
use the_watcher.Text.{Text, codes}
use the_watcher.Text.Search.{
  starts_with, cut_at, after_char, starts_with-drop, Halves, after_char-Halves, cut_at-Halves,
  Without,
}
use the_watcher.Wiki.Schema.{Owner}
use the_watcher.Wiki.Page.{
  fence_close, fence_open, ends_line, end_of_open, word_end, word_from, prefixed, open_here,
  or_later, find_open, new_fence, close_after, fence_parts, split_fence,
}

-- No mark starts in the first text, where the second follows it.
abbrev pub Lacking : Text → Text → Text → Type 0
Lacking p [] rest = Unit
Lacking p (c ∷ t) rest = (starts_with p ((c ∷ t) ++ rest) ≡ false) × Lacking p t rest

-- The first occurrence: the mark starts the second text, and starts nowhere in the first.
abbrev pub FirstAt : Text → Text → Option (Text × Text) → Type 0
FirstAt p t none = Without p t
FirstAt p t (some (a, b)) = (starts_with p b ≡ true) × Lacking p a b

later :
    (p : Text) (c : ℕ) (t : Text) (o : Option (Text × Text))
    → starts_with p (c ∷ t) ≡ false
    → FirstAt p t o
    → Halves t o
    → FirstAt p (c ∷ t) (after_char c o)
unfolding after_char
later p c t none e h k = (e, h)
later p c t (some (a, b)) e (h, l) k = (h, (ap (λ u. starts_with p (c ∷ u)) k ∙ e, l))

cut_at-FirstAt : (p t : Text) → FirstAt p t (cut_at p t)
unfolding cut_at
cut_at-FirstAt p [] = elim (Bool-cases (starts_with p [])) [ inl e ↦ rw e (e, tt) | inr e ↦ rw e e ]
cut_at-FirstAt p (c ∷ t) = elim (Bool-cases (starts_with p (c ∷ t))) [
  | inl e ↦ rw e (e, tt)
  | inr e ↦ rw e (later p c t (cut_at p t) e (cut_at-FirstAt p t) (cut_at-Halves p t))
]

module _ (is_word : ℕ → Bool) where
  end_of_open-Halves : (t : Text) → Halves t (end_of_open is_word t)
  end_of_open-Halves t = elim (Bool-cases (starts_with (codes " -->\n") t)) [
    | inl e ↦ rw e (starts_with-drop (codes " -->\n") t e)
    | inr e ↦ elim (Bool-cases (starts_with (codes " -->") t)) [
      | inl f ↦ rw (e, f) (starts_with-drop (codes " -->") t f)
      | inr f ↦ rw (e, f) tt
    ]
  ]

  word_end-Halves : (t : Text) → Halves t (word_end is_word t)
  unfolding word_end
  word_end-Halves [] = tt
  word_end-Halves (c ∷ t) = elim (Bool-cases (is_word c)) [
    | inl e ↦ rw e (after_char-Halves c t (word_end is_word t) (word_end-Halves t))
    | inr e ↦ rw e (end_of_open-Halves (c ∷ t))
  ]

  word_from-Halves : (t : Text) → Halves t (word_from is_word t)
  word_from-Halves [] = tt
  word_from-Halves (c ∷ t) = elim (Bool-cases (is_word c)) [
    | inl e ↦ rw e (after_char-Halves c t (word_end is_word t) (word_end-Halves t))
    | inr e ↦ rw e tt
  ]

  prefixed-Halves :
      (p t : Text) (o : Option (Text × Text)) → Halves t o → Halves (p ++ t) (prefixed is_word p o)
  prefixed-Halves p t none h = tt
  prefixed-Halves p t (some (a, b)) h = append_assoc p a b ∙ ap (λ u. p ++ u) h

  open_here-Halves : (t : Text) → Halves t (open_here is_word t)
  unfolding open_here
  open_here-Halves t = elim (Bool-cases (starts_with (codes "<!-- watcher:") t)) [
    | inl e ↦ rw e (
        subst
          (λ u. Halves u (prefixed is_word (codes "<!-- watcher:") (word_from is_word (drop 13 t))))
          (starts_with-drop (codes "<!-- watcher:") t e)
          (prefixed-Halves (codes "<!-- watcher:") (drop 13 t) (word_from is_word (drop 13 t))
            (word_from-Halves (drop 13 t))))
    | inr e ↦ rw e tt
  ]

  or_later-Halves :
      (t : Text) (o p : Option (Text × Text))
      → Halves t o
      → Halves t p
      → Halves t (or_later is_word o p)
  or_later-Halves t none p h k = k
  or_later-Halves t (some x) p h k = h

  pub find_open-Halves : (t : Text) → Halves t (find_open is_word t)
  unfolding find_open
  find_open-Halves [] = open_here-Halves []
  find_open-Halves (c ∷ t) =
      or_later-Halves (c ∷ t) (open_here is_word (c ∷ t)) (after_char c (find_open is_word t))
        (open_here-Halves (c ∷ t))
        (after_char-Halves c t (find_open is_word t) (find_open-Halves t))

  -- An opening mark, as the code's pattern writes it: a word in it, and at most a newline after it.
  abbrev pub IsMark : Text → Type 0
  IsMark m =
      (c : ℕ) × (w : Text) × (e : Text) × (m
        ≡ codes "<!-- watcher:" ++ (c ∷ (w ++ (codes " -->" ++ e))))
      × All (λ d. is_word d ≡ true) (c ∷ w)
      × ((e ≡ []) ⊎ (e ≡ 10 ∷ []))

  abbrev Ending : Option (Text × Text) → Type 0
  Ending none = Unit
  Ending (some (m, r)) =
      (w : Text) × (e : Text) × (m ≡ w ++ (codes " -->" ++ e))
      × All (λ d. is_word d ≡ true) w
      × ((e ≡ []) ⊎ (e ≡ 10 ∷ []))

  end_of_open-Ending : (t : Text) → Ending (end_of_open is_word t)
  end_of_open-Ending t = elim (Bool-cases (starts_with (codes " -->\n") t)) [
    | inl e ↦ rw e ([], 10 ∷ [], refl, tt, inr refl)
    | inr e ↦ elim (Bool-cases (starts_with (codes " -->") t)) [
      | inl f ↦ rw (e, f) ([], [], refl, tt, inl refl)
      | inr f ↦ rw (e, f) tt
    ]
  ]

  word_more :
      (c : ℕ) (o : Option (Text × Text)) → is_word c ≡ true → Ending o → Ending (after_char c o)
  unfolding after_char
  word_more c none h k = tt
  word_more c (some (m, r)) h (w, e, f, g, l) = (c ∷ w, e, ap (◌∷◌ c) f, (h, g), l)

  word_end-Ending : (t : Text) → Ending (word_end is_word t)
  unfolding word_end
  word_end-Ending [] = tt
  word_end-Ending (c ∷ t) = elim (Bool-cases (is_word c)) [
    | inl e ↦ rw e (word_more c (word_end is_word t) e (word_end-Ending t))
    | inr e ↦ rw e (end_of_open-Ending (c ∷ t))
  ]

  abbrev Marks : Option (Text × Text) → Type 0
  Marks none = Unit
  Marks (some (m, r)) = IsMark m

  word-Marks :
      (c : ℕ) (o : Option (Text × Text))
      → is_word c ≡ true
      → Ending o
      → Marks (prefixed is_word (codes "<!-- watcher:") (after_char c o))
  unfolding after_char
  word-Marks c none h k = tt
  word-Marks c (some (m, r)) h (w, e, f, g, l) =
      (c, w, e, ap (λ u. codes "<!-- watcher:" ++ (c ∷ u)) f, (h, g), l)

  word_from-Marks :
      (t : Text) → Marks (prefixed is_word (codes "<!-- watcher:") (word_from is_word t))
  word_from-Marks [] = tt
  word_from-Marks (c ∷ t) = elim (Bool-cases (is_word c)) [
    | inl e ↦ rw e (word-Marks c (word_end is_word t) e (word_end-Ending t))
    | inr e ↦ rw e tt
  ]

  open_here-Marks : (t : Text) → Marks (open_here is_word t)
  unfolding open_here
  open_here-Marks t = elim (Bool-cases (starts_with (codes "<!-- watcher:") t)) [
    | inl e ↦ rw e (word_from-Marks (drop 13 t))
    | inr e ↦ rw e tt
  ]

  -- No opening mark starts in the first text, where the second follows it.
  abbrev pub Unopened : Text → Text → Type 0
  Unopened [] rest = Unit
  Unopened (c ∷ t) rest = (open_here is_word ((c ∷ t) ++ rest) ≡ none) × Unopened t rest

  -- The first opening mark ends the first text.
  abbrev pub Opens : Text → Text → Type 0
  Opens before rest =
      (a : Text) × (m : Text) × (before ≡ a ++ m) × IsMark m × Unopened a (m ++ rest)

  abbrev FirstOpen : Text → Option (Text × Text) → Type 0
  FirstOpen t none = Unopened t []
  FirstOpen t (some (before, rest)) = Opens before rest

  opened_later :
      (c : ℕ) (t : Text) (o : Option (Text × Text))
      → open_here is_word (c ∷ t) ≡ none
      → FirstOpen t o
      → Halves t o
      → FirstOpen (c ∷ t) (after_char c o)
  unfolding after_char
  opened_later c t none e h k = (ap (λ u. open_here is_word (c ∷ u)) (append-nil t) ∙ e, h)
  opened_later c t (some (before, rest)) e (a, m, f, g, u) k = (
    c ∷ a,
    m,
    ap (◌∷◌ c) f,
    g,
    (
      ap (λ x. open_here is_word (c ∷ x))
            (sym (append_assoc a m rest) ∙ ap (λ x. x ++ rest) (sym f) ∙ k)
          ∙ e,
      u,
    ),
  )

  opened_first :
      (c : ℕ) (t : Text) (o : Option (Text × Text))
      → open_here is_word (c ∷ t) ≡ o
      → Marks o
      → FirstOpen t (find_open is_word t)
      → FirstOpen (c ∷ t) (or_later is_word o (after_char c (find_open is_word t)))
  opened_first c t none e m h = opened_later c t (find_open is_word t) e h (find_open-Halves t)
  opened_first c t (some (x, y)) e m h = ([], x, refl, m, tt)

  opened_at_end : (o : Option (Text × Text)) → Marks o → FirstOpen [] o
  opened_at_end none m = tt
  opened_at_end (some (x, y)) m = ([], x, refl, m, tt)

  find_open-FirstOpen : (t : Text) → FirstOpen t (find_open is_word t)
  unfolding find_open
  find_open-FirstOpen [] = opened_at_end (open_here is_word []) (open_here-Marks [])
  find_open-FirstOpen (c ∷ t) =
      opened_first c t (open_here is_word (c ∷ t)) refl (open_here-Marks (c ∷ t))
        (find_open-FirstOpen t)

  -- The body has no whole fence: no opening mark, or no closing one after the first.
  abbrev pub Unfenced : Text → Type 0
  Unfenced body =
      Unopened body []
      ⊎ ((before : Text) × (rest : Text) × (before ++ rest ≡ body)
          × Opens before rest
          × Without fence_close rest)

  -- The parts of a body. Either they make the body: the first ends with the first opening mark, the
  -- last starts with the first closing mark after it, and the inside is between them. Or the body
  -- has no whole fence, and gets one after it.
  pub Parts : Text → Owner → Text × Text × Text → Type 0
  Parts body owner (before, inner, after) =
      ((before ++ (inner ++ after) ≡ body)
        × Opens before (inner ++ after)
        × (starts_with fence_close after ≡ true)
        × Lacking fence_close inner after)
      ⊎ (Unfenced body
          × ((e : Text) × (before ≡ (body ++ e) ++ (fence_open owner ++ 10 ∷ []))
              × ((e ≡ []) ⊎ (e ≡ 10 ∷ []))
              × (inner ≡ [])
              × (after ≡ fence_close ++ 10 ∷ [])))

  new_fence-Parts :
      (body : Text) (owner : Owner)
      → Unfenced body
      → Parts body owner (new_fence is_word body owner)
  unfolding new_fence Parts
  new_fence-Parts body owner u = elim (Bool-cases (contains ([] ∷ []) body || ends_line body)) [
    | inl e ↦ inr (u, ([], rw (e, append-nil body) refl, inl refl, refl, refl))
    | inr e ↦ inr (u, (10 ∷ [], rw e refl, inr refl, refl, refl))
  ]

  close_after-Parts :
      (body : Text) (owner : Owner) (before rest : Text) (o : Option (Text × Text))
      → before ++ rest ≡ body
      → Opens before rest
      → Halves rest o
      → FirstAt fence_close rest o
      → Parts body owner (close_after is_word body owner before o)
  unfolding close_after Parts
  close_after-Parts body owner before rest none h p k f =
      new_fence-Parts body owner (inr (before, rest, h, p, f))
  close_after-Parts body owner before rest (some (inner, after)) h p k (f, l) =
      inl (ap (λ u. before ++ u) k ∙ h, subst (Opens before) (sym k) p, f, l)

  fence_parts-Parts :
      (body : Text) (owner : Owner) (o : Option (Text × Text))
      → Halves body o
      → FirstOpen body o
      → Parts body owner (fence_parts is_word body owner o)
  unfolding fence_parts
  fence_parts-Parts body owner none h p = new_fence-Parts body owner (inl p)
  fence_parts-Parts body owner (some (before, rest)) h p =
      close_after-Parts body owner before rest (cut_at fence_close rest) h p
        (cut_at-Halves fence_close rest) (cut_at-FirstAt fence_close rest)

  pub split_fence-Parts :
      (body : Text) (owner : Owner) → Parts body owner (split_fence is_word body owner)
  unfolding split_fence
  split_fence-Parts body owner =
      fence_parts-Parts body owner (find_open is_word body) (find_open-Halves body)
        (find_open-FirstOpen body)
