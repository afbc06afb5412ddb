-- ===== src/Wiki/Parser/Laws.antt =====
-- Dumping a parsed page gives its text back, but for the marks of the frontmatter; and reading that
-- text again gives the same page.
use mathlib.Core.List.{append_assoc}
use mathlib.Core.Path.{subst}
use the_watcher.Prelude.{
  ℕ, String, ◌≡◌, refl, ap, sym, ◌∙◌, ◌⊎◌, inl, inr, arith, true, false, ◌&&◌, Option, none, some,
  List, [], ◌∷◌, ◌++◌, nat_eq, nat_eq_iff, nat_is_eq, list_is_eq, contains, drop, Bool-cases,
}
use the_watcher.Text.{Text, codes}
use the_watcher.Text.Search.{starts_with, starts_with-drop, after_char}
use the_watcher.Wiki.Page.{Section}
use the_watcher.Wiki.Parser.{
  Parsed, after_open, find_close, after_newline, after_mark, closed, opened, frontmatter_match,
  to_first, kept_lines, header_title, add_line, gather, full_texts, dump_page, with_front,
  with_type, with_yaml, parse_match, parse_page,
}

abbrev concat : List Text → Text
concat [] = []
concat (l ∷ ls) = l ++ concat ls

concat-to_first : (c : ℕ) (ls : List Text) → concat (to_first c ls) ≡ c ∷ concat ls
unfolding to_first
concat-to_first c [] = refl
concat-to_first c (l ∷ ls) = refl

concat-kept_lines : (t : Text) → concat (kept_lines t) ≡ t
unfolding kept_lines
concat-kept_lines [] = refl
concat-kept_lines (c ∷ t) = elim (Bool-cases (nat_eq c 10)) [
  | inl e ↦ rw e (ap (◌∷◌ c) (concat-kept_lines t))
  | inr e ↦ rw e (concat-to_first c (kept_lines t) ∙ ap (◌∷◌ c) (concat-kept_lines t))
]

-- The preamble and the sections in one text.
abbrev pub whole : Text × List Section → Text
whole (preamble, sections) = preamble ++ full_texts sections

whole-add_line :
    (line : Text) (o : Option Text) (parts : Text × List Section)
    → whole (add_line line o parts) ≡ line ++ whole parts
unfolding add_line full_texts
whole-add_line line none (before, sections) = append_assoc line before (full_texts sections)
whole-add_line line (some title) (before, sections) = append_assoc line before (full_texts sections)

whole-gather : (lines : List Text) → whole (gather lines) ≡ concat lines
unfolding gather full_texts
whole-gather [] = refl
whole-gather (line ∷ lines) =
    whole-add_line line (header_title line) (gather lines)
    ∙ ap (λ t. line ++ t) (whole-gather lines)

whole-rest : (rest : Text) → whole (gather (kept_lines rest)) ≡ rest
whole-rest rest = whole-gather (kept_lines rest) ∙ concat-kept_lines rest

-- What `find_close` finds: the text in two, the second one with the dashes.
abbrev Closing : Text → Option (Text × Text) → Type 0
Closing t none = Unit
Closing t (some (raw, rest)) =
    (raw ++ (codes "---" ++ drop 3 rest) ≡ t)
    × ((x : Text) → find_close (raw ++ (codes "---" ++ x)) ≡ some (raw, codes "---" ++ x))

same_start :
    (raw x y : Text)
    → starts_with (codes "---") (raw ++ (codes "---" ++ x))
      ≡ starts_with (codes "---") (raw ++ (codes "---" ++ y))
unfolding starts_with
same_start [] x y = refl
same_start (a ∷ []) x y = refl
same_start (a ∷ b ∷ []) x y = refl
same_start (a ∷ b ∷ c ∷ raw) x y = refl

no_mark :
    (c : ℕ) (t raw y x : Text)
    → (nat_eq c 10 && starts_with (codes "---") t) ≡ false
    → raw ++ (codes "---" ++ y) ≡ t
    → (nat_eq c 10 && starts_with (codes "---") (raw ++ (codes "---" ++ x))) ≡ false
no_mark c t raw y x e h =
    ap (λ b. nat_eq c 10 && b) (same_start raw x y ∙ ap (starts_with (codes "---")) h) ∙ e

Closing-here :
    (c : ℕ) (t : Text)
    → nat_eq c 10 ≡ true
    → starts_with (codes "---") t ≡ true
    → Closing (c ∷ t) (some (c ∷ [], t))
unfolding find_close starts_with
Closing-here c t e f = (ap (◌∷◌ c) (starts_with-drop (codes "---") t f), λ x. rw e refl)

Closing-after_char :
    (c : ℕ) (t : Text) (o : Option (Text × Text))
    → (nat_eq c 10 && starts_with (codes "---") t) ≡ false
    → Closing t o
    → Closing (c ∷ t) (after_char c o)
unfolding after_char find_close
Closing-after_char c t none e h = tt
Closing-after_char c t (some (raw, rest)) e (h, again) =
    (ap (◌∷◌ c) h, λ x. rw (no_mark c t raw (drop 3 rest) x e h, again x) refl)

find_close-Closing : (t : Text) → Closing t (find_close t)
unfolding find_close
find_close-Closing [] = tt
find_close-Closing (c ∷ t) = elim (Bool-cases (nat_eq c 10 && starts_with (codes "---") t)) [
  | inr e ↦ rw e (Closing-after_char c t (find_close t) e (find_close-Closing t))
  | inl e ↦ rw e (Closing-here c t (ground (arith, e)) (ground (arith, e)))
]

abbrev marks_after : List Text
marks_after = [] ∷ codes "\n" ∷ codes "\r" ∷ codes "\r\n" ∷ []

abbrev marks_before : List Text
marks_before = codes "---\n" ∷ codes "---\r\n" ∷ []

-- The frontmatter's text between its two marks, and the text below them.
abbrev pub Marked : Text → Text → Text → Type 0
Marked text raw rest =
    (first : Text) × (last : Text) × (contains marks_before first ≡ true)
    × (contains marks_after last ≡ true)
    × (text ≡ first ++ (raw ++ (codes "---" ++ (last ++ rest))))

after_newline-suffix : (t : Text) → (t ≡ after_newline t) ⊎ (t ≡ 10 ∷ after_newline t)
unfolding after_newline
after_newline-suffix [] = inl refl
after_newline-suffix (c ∷ t) = elim (Bool-cases (nat_eq c 10)) [
  | inl e ↦ inr (rw e (ap (λ d. d ∷ t) ((nat_eq_iff c 10).0 e)))
  | inr e ↦ inl (rw e refl)
]

after_mark-suffix :
    (t : Text) → (last : Text) × (contains marks_after last ≡ true) × (t ≡ last ++ after_mark t)
unfolding after_mark
after_mark-suffix [] = ([], refl, refl)
after_mark-suffix (c ∷ t) = elim (Bool-cases (nat_eq c 13)) [
  | inl e ↦ elim (after_newline-suffix t) [
    | inl f ↦ (codes "\r", refl, rw e (λ i. (nat_eq_iff c 13).0 e i ∷ f i))
    | inr f ↦ (codes "\r\n", refl, rw e (λ i. (nat_eq_iff c 13).0 e i ∷ f i))
  ]
  | inr e ↦ elim (after_newline-suffix (c ∷ t)) [
    | inl f ↦ ([], refl, rw e f)
    | inr f ↦ (codes "\n", refl, rw e f)
  ]
]

-- The marked text, and another text with the same frontmatter and other marks.
abbrev Matched : Text → Option (Text × Text) → Type 0
Matched text none = Unit
Matched text (some (raw, rest)) =
    Marked text raw rest
    × (frontmatter_match (codes "---\n" ++ (raw ++ (codes "---\n" ++ rest))) ≡ some (raw, rest))

reopened :
    (raw rest : Text)
    → ((x : Text) → find_close (raw ++ (codes "---" ++ x)) ≡ some (raw, codes "---" ++ x))
    → frontmatter_match (codes "---\n" ++ (raw ++ (codes "---\n" ++ rest))) ≡ some (raw, rest)
unfolding frontmatter_match opened closed after_open starts_with after_mark after_newline
reopened raw rest again = rw (again (10 ∷ rest)) refl

Matched-closed :
    (text first t : Text) (o : Option (Text × Text))
    → contains marks_before first ≡ true
    → first ++ t ≡ text
    → Closing t o
    → Matched text (closed o)
unfolding closed
Matched-closed text first t none is_mark h closing = tt
Matched-closed text first t (some (raw, rest)) is_mark h (found, again) =
    let (last, is_last, e) = after_mark-suffix (drop 3 rest) in
    (
      (
        first,
        last,
        is_mark,
        is_last,
        sym h ∙ ap (λ x. first ++ x) (sym found) ∙ ap (λ x. first ++ (raw ++ (codes "---" ++ x))) e,
      ),
      reopened raw (after_mark (drop 3 rest)) again,
    )

Matched-opened : (text : Text) → Matched text (opened (after_open text))
unfolding opened after_open
Matched-opened text = elim (Bool-cases (starts_with (codes "---\n") text)) [
  | inl e ↦ rw e (
      Matched-closed text (codes "---\n") (drop 4 text) (find_close (drop 4 text)) refl
        (starts_with-drop (codes "---\n") text e) (find_close-Closing (drop 4 text)))
  | inr e ↦ rw e (elim (Bool-cases (starts_with (codes "---\r\n") text)) [
    | inl f ↦ rw f (
        Matched-closed text (codes "---\r\n") (drop 5 text) (find_close (drop 5 text)) refl
          (starts_with-drop (codes "---\r\n") text f) (find_close-Closing (drop 5 text)))
    | inr f ↦ rw f tt
  ])
]

module _ {Y F : Type 0} (load : Text → Option Y) (type_of : Y → Option String)
    (validate : String → Y → Option F) where
  -- A page's frontmatter is `raw`, and its preamble and sections make up `rest`.
  abbrev Parts : Text → Text → Parsed F → Type 0
  Parts raw rest p =
      (p.frontmatter_raw ≡ raw) × (p.page.preamble ++ full_texts p.page.sections ≡ rest)

  parsed_inj : {p q : Parsed F} → some p ≡ some q → p ≡ q
  parsed_inj h = cc h

  Parts-with_front :
      (page_type : String) (raw rest : Text) (o : Option F) (p : Parsed F)
      → with_front load type_of page_type raw rest o ≡ some p
      → Parts raw rest p
  unfolding with_front
  Parts-with_front page_type raw rest none p h = absurd (cc h)
  Parts-with_front page_type raw rest (some front) p h =
      let e = sym (parsed_inj h) in
      (
        ap (λ q. q.frontmatter_raw) e,
        ap (λ q. q.page.preamble ++ full_texts q.page.sections) e ∙ whole-rest rest,
      )

  Parts-with_type :
      (raw rest : Text) (y : Y) (o : Option String) (p : Parsed F)
      → with_type load type_of validate raw rest y o ≡ some p
      → Parts raw rest p
  unfolding with_type
  Parts-with_type raw rest y none p h = absurd (cc h)
  Parts-with_type raw rest y (some page_type) p h =
      Parts-with_front page_type raw rest (validate page_type y) p h

  Parts-with_yaml :
      (raw rest : Text) (o : Option Y) (p : Parsed F)
      → with_yaml load type_of validate raw rest o ≡ some p
      → Parts raw rest p
  unfolding with_yaml
  Parts-with_yaml raw rest none p h = absurd (cc h)
  Parts-with_yaml raw rest (some y) p h = Parts-with_type raw rest y (type_of y) p h

  -- What a parsed page says of its text.
  abbrev pub DumpsTo : Text → Parsed F → Type 0
  DumpsTo text p =
      (rest : Text) × Marked text p.frontmatter_raw rest
      × (dump_page p ≡ codes "---\n" ++ (p.frontmatter_raw ++ (codes "---\n" ++ rest)))
      × (parse_page load type_of validate (dump_page p) ≡ some p)

  dumps_match :
      (text : Text) (o : Option (Text × Text)) (p : Parsed F)
      → Matched text o
      → parse_match load type_of validate o ≡ some p
      → DumpsTo text p
  unfolding parse_match parse_page dump_page
  dumps_match text none p m h = absurd (cc h)
  dumps_match text (some (raw, rest)) p (marked, again) h =
      let (same_raw, same_rest) = Parts-with_yaml raw rest (load raw) p h in
      let dumped : dump_page p ≡ codes "---\n" ++ (raw ++ (codes "---\n" ++ rest)) =
        λ i. codes "---\n" ++ (same_raw i ++ (codes "---\n" ++ same_rest i)) in
      (
        rest,
        subst (λ r. Marked text r rest) (sym same_raw) marked,
        ap (λ t. codes "---\n" ++ (p.frontmatter_raw ++ (codes "---\n" ++ t))) same_rest,
        ap (λ t. parse_match load type_of validate (frontmatter_match t)) dumped
            ∙ ap (parse_match load type_of validate) again
            ∙ h,
      )

  -- A page that is parsed is dumped as its text, with `---` and a newline for both marks of the
  -- frontmatter, whatever newlines they had or lacked; and that text is parsed as the same page.
  pub dump_page-parse_page :
      (text : Text) (p : Parsed F) → parse_page load type_of validate text ≡ some p → DumpsTo text p
  unfolding parse_page frontmatter_match
  dump_page-parse_page text p h =
      dumps_match text (opened (after_open text)) p (Matched-opened text) h
