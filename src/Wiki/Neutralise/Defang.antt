-- ===== src/Wiki/Neutralise/Defang.antt =====
-- A fence marker that is defanged is one no more, and headings stay what they are.
use the_watcher.Prelude.{ℕ, zero, suc, ◌≡◌, refl, ap, ◌∙◌, ◌⊎◌, Bool, true, false, ◌&&◌, inl, inr}
use the_watcher.Prelude.{[], ◌∷◌, arith, nat_eq, Bool-cases, All}
use the_watcher.Text.{Text, codes, is_space, lstrip_if}
use the_watcher.Wiki.Neutralise.{
  hash_run, opens_heading, is_heading, follows, anything, slash_watcher, names_watcher,
  opens_marker, defang, Unmarked,
}

-- Only a `<` begins a marker.
marker_begins : (c : ℕ) (t : Text) → nat_eq c 60 ≡ false → opens_marker (c ∷ t) ≡ false
unfolding opens_marker
marker_begins c t h = rw h refl

defang_nil : defang [] ≡ []
unfolding defang
defang_nil = refl

-- `defang` keeps a character that is no `<`, and makes of a `<` itself or an `&`.
defang_kept : (c : ℕ) (t : Text) → nat_eq c 60 ≡ false → defang (c ∷ t) ≡ c ∷ defang t
unfolding defang
defang_kept c t h = rw (marker_begins c t h) refl

defang_first :
    (c : ℕ) (t : Text)
    → nat_eq c 60 ≡ true
    → (d : ℕ) × (s : Text) × (defang (c ∷ t) ≡ d ∷ s) × ((d ≡ 60) ⊎ (d ≡ 38))
unfolding defang
defang_first c t h = elim (Bool-cases (opens_marker (c ∷ t))) [
  | inl e ↦ (38, 108 ∷ 116 ∷ 59 ∷ defang t, rw e refl, inr refl)
  | inr e ↦ (c, defang t, rw e refl, inl (ground arith))
]

-- A text that has neither `<` nor `&` is found in the one exactly if it is in the other.
abbrev Plain : Text → Type 0
Plain p = All (λ d. (nat_eq d 60 ≡ false) × (nat_eq d 38 ≡ false)) p

follows_no :
    (k : Text → Bool) (d : ℕ) (p : Text) (c : ℕ) (t : Text)
    → (nat_eq d 60 ≡ false) × (nat_eq d 38 ≡ false)
    → nat_eq c 60 ≡ true
    → follows k (d ∷ p) (defang (c ∷ t)) ≡ follows k (d ∷ p) (c ∷ t)
unfolding follows
follows_no k d p c t h e =
    let first = defang_first c t e in
    let away : nat_eq d c ≡ false = ground (arith, h.0, e) in
    let other : nat_eq d first.0 ≡ false = ground (arith, h.0, h.1, first.3) in
    rw (first.2, other, away) refl

follows-defang :
    (k : Text → Bool) (p t : Text)
    → Plain p
    → ((u : Text) → k (defang u) ≡ k u)
    → follows k p (defang t) ≡ follows k p t
unfolding follows
follows-defang k [] t h same = same t
follows-defang k (d ∷ p) [] h same = rw defang_nil refl
follows-defang k (d ∷ p) (c ∷ t) h same = elim (Bool-cases (nat_eq c 60)) [
  | inl e ↦ follows_no k d p c t h.0 e
  | inr e ↦ rw (defang_kept c t e) (ap (λ b. nat_eq d c && b) (follows-defang k p t h.1 same))
]

nat_same : (m n : ℕ) → nat_eq m n ≡ true → m ≡ n
nat_same m n h = ground (arith, h)

no_space_60 : (c : ℕ) → (c ≡ 60) ⊎ (c ≡ 38) → is_space c ≡ false
unfolding is_space
no_space_60 c (inl e) = rw e refl
no_space_60 c (inr e) = rw e refl

watcher-Plain : Plain (codes "watcher")
watcher-Plain = ground arith

dashes-Plain : Plain (codes "!--")
dashes-Plain = ground arith

lstrip_if-defang : (t : Text) → lstrip_if is_space (defang t) ≡ defang (lstrip_if is_space t)
unfolding lstrip_if
lstrip_if-defang [] = rw defang_nil refl
lstrip_if-defang (c ∷ t) = elim (Bool-cases (nat_eq c 60)) [
  | inl e ↦
      let first = defang_first c t e in
      rw (no_space_60 c (inl (nat_same c 60 e)), first.2, no_space_60 first.0 first.3) refl
  | inr e ↦ elim (Bool-cases (is_space c)) [
    | inl s ↦ rw (defang_kept c t e, s) (lstrip_if-defang t)
    | inr s ↦ rw (defang_kept c t e, s, defang_kept c t e) refl
  ]
]

slash_watcher-defang : (t : Text) → slash_watcher (defang t) ≡ slash_watcher t
unfolding slash_watcher
slash_watcher-defang [] = rw defang_nil refl
slash_watcher-defang (c ∷ t) = elim (Bool-cases (nat_eq c 60)) [
  | inl e ↦
      let first = defang_first c t e in
      let away : nat_eq c 47 ≡ false = ground (arith, e) in
      let other : nat_eq first.0 47 ≡ false = ground (arith, first.3) in
      rw (first.2, other, away)
        (rw (← first.2)
          (follows-defang anything (codes "watcher") (c ∷ t) watcher-Plain (λ u. refl)))
  | inr e ↦ elim (Bool-cases (nat_eq c 47)) [
    | inl s ↦
        rw (defang_kept c t e, s)
          (follows-defang anything (codes "watcher") t watcher-Plain (λ u. refl))
    | inr s ↦
        rw (defang_kept c t e, s)
          (rw (← defang_kept c t e)
            (follows-defang anything (codes "watcher") (c ∷ t) watcher-Plain (λ u. refl)))
  ]
]

names_watcher-defang : (t : Text) → names_watcher (defang t) ≡ names_watcher t
unfolding names_watcher
names_watcher-defang t =
    ap slash_watcher (lstrip_if-defang t) ∙ slash_watcher-defang (lstrip_if is_space t)

opens_marker-defang : (c : ℕ) (t : Text) → opens_marker (c ∷ defang t) ≡ opens_marker (c ∷ t)
unfolding opens_marker
opens_marker-defang c t =
    ap (λ b. nat_eq c 60 && b)
      (follows-defang names_watcher (codes "!--") t dashes-Plain names_watcher-defang)

pub defang-Unmarked : (t : Text) → Unmarked (defang t)
unfolding defang
defang-Unmarked [] = tt
defang-Unmarked (c ∷ t) = elim (Bool-cases (opens_marker (c ∷ t))) [
  | inl e ↦ rw e (
    marker_begins 38 _ refl,
    (
      marker_begins 108 _ refl,
      (marker_begins 116 _ refl, (marker_begins 59 _ refl, defang-Unmarked t)),
    ),
  )
  | inr e ↦ rw e (opens_marker-defang c t ∙ e, defang-Unmarked t)
]

pub defang_plain : (t : Text) → Unmarked t → defang t ≡ t
unfolding defang
defang_plain [] u = refl
defang_plain (c ∷ t) u = rw (u.0, defang_plain t u.1) refl

hash_run-defang : (n : ℕ) (t : Text) → hash_run n (defang t) ≡ hash_run n t
unfolding hash_run
hash_run-defang zero [] = rw defang_nil refl
hash_run-defang (suc n) [] = rw defang_nil refl
hash_run-defang zero (c ∷ t) = elim (Bool-cases (nat_eq c 60)) [
  | inl e ↦
      let first = defang_first c t e in
      rw (first.2, no_space_60 first.0 first.3, no_space_60 c (inl (nat_same c 60 e))) refl
  | inr e ↦ rw (defang_kept c t e) refl
]
hash_run-defang (suc n) (c ∷ t) = elim (Bool-cases (nat_eq c 60)) [
  | inl e ↦
      let first = defang_first c t e in
      let away : nat_eq c 35 ≡ false = ground (arith, e) in
      let other : nat_eq first.0 35 ≡ false = ground (arith, first.3) in
      rw (first.2, other, away, no_space_60 first.0 first.3, no_space_60 c (inl (nat_same c 60 e)))
        refl
  | inr e ↦ rw (defang_kept c t e, hash_run-defang n t) refl
]

opens_heading-defang : (t : Text) → opens_heading (defang t) ≡ opens_heading t
unfolding opens_heading
opens_heading-defang [] = rw defang_nil refl
opens_heading-defang (c ∷ t) = elim (Bool-cases (nat_eq c 60)) [
  | inl e ↦
      let first = defang_first c t e in
      let away : nat_eq c 35 ≡ false = ground (arith, e) in
      let other : nat_eq first.0 35 ≡ false = ground (arith, first.3) in
      rw (first.2, other, away) refl
  | inr e ↦ rw (defang_kept c t e, hash_run-defang 5 t) refl
]

is_heading-cons :
    (n : ℕ) (c : ℕ) (t : Text) → is_space c ≡ false → is_heading n (c ∷ t) ≡ opens_heading (c ∷ t)
unfolding is_heading
is_heading-cons zero c t h = refl
is_heading-cons (suc n) c t h = rw h refl

pub is_heading-defang : (n : ℕ) (t : Text) → is_heading n (defang t) ≡ is_heading n t
unfolding is_heading
is_heading-defang zero [] = rw defang_nil refl
is_heading-defang (suc n) [] = rw defang_nil refl
is_heading-defang zero (c ∷ t) = elim (Bool-cases (nat_eq c 60)) [
  | inl e ↦
      let first = defang_first c t e in rw first.2 (rw (← first.2) (opens_heading-defang (c ∷ t)))
  | inr e ↦ rw (defang_kept c t e) (rw (← defang_kept c t e) (opens_heading-defang (c ∷ t)))
]
is_heading-defang (suc n) (c ∷ t) = elim (Bool-cases (nat_eq c 60)) [
  | inl e ↦
      let first = defang_first c t e in
      rw (first.2, no_space_60 first.0 first.3, no_space_60 c (inl (nat_same c 60 e)))
        (rw (← first.2) (opens_heading-defang (c ∷ t)))
  | inr e ↦
      rw (defang_kept c t e, is_heading-defang n t)
        (rw (← defang_kept c t e, opens_heading-defang (c ∷ t)) refl)
]
