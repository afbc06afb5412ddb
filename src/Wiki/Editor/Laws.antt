-- ===== src/Wiki/Editor/Laws.antt =====
-- What a write leaves alone: the other sections, and in its own section all but the fence's inside.
use the_watcher.Prelude.{
  ℕ, ◌≡◌, refl, ap, sym, ◌∙◌, ◌⊎◌, inl, inr, String, Bool, Option, none, some, arith,
}
use the_watcher.Prelude.{List, [], ◌∷◌, ◌++◌, Bool-cases, Option-cases}
use the_watcher.Text.{Text}
use the_watcher.Wiki.Neutralise.{neutralise}
use the_watcher.Wiki.Schema.{Owner, canonical_section_title, owner_of}
use the_watcher.Wiki.Page.{Section, Page, inner_of, goes_by, section_named, section, split_fence}
use the_watcher.Wiki.Page.Fence.{Parts, split_fence-Parts}
use the_watcher.Wiki.Editor.{
  Spot, sections_of, find_spot, or_inserted, with_section, set_body, may_rewrite, allowed,
  rewritten, rewrite_as, set_fenced,
}

-- Where the section is: the spot that the search finds.
Found : String → Text → Text → List Section → Section → Option Spot → Type 0
Found page_type canonical preamble sections s o =
    (spot : Spot) × (o ≡ some spot)
    × (spot.here ≡ s)
    × (spot.preamble ≡ preamble)
    × (sections_of spot ≡ sections)

module _ (fold : ℕ → Text) (page_type : String) (canonical preamble : Text) where
  find_spot-Found :
      (sections : List Section) (s : Section)
      → section_named fold page_type canonical sections ≡ some s
      → Found page_type canonical preamble sections s
          (find_spot fold page_type canonical preamble sections)
  unfolding find_spot section_named Found
  find_spot-Found [] s h = ground (arith, h)
  find_spot-Found (t ∷ sections) s h = elim (Bool-cases (goes_by fold page_type canonical t)) [
    | inl e ↦ (
      record { preamble = preamble; left = []; here = t; right = sections },
      rw e refl,
      ground (arith, e, h),
      refl,
      refl,
    )
    | inr e ↦
        let found = find_spot-Found sections s (ground (arith, e, h)) in
        (
          record found.0 { left = t ∷ found.0.left },
          rw (e, found.1) refl,
          found.2,
          found.3,
          ap (◌∷◌ t) found.4,
        )
  ]

some_inj : {A : Type 0} {a b : A} → some a ≡ some b → a ≡ b
some_inj h = cc h

-- A write by `owner` to the section `s`, which becomes `body` outside its fence's inside.
pub KeptBy : {F : Type 0} → (ℕ → Bool) → Page F → Page F → Section → Text → Owner → Type 0
KeptBy is_word page page' s body owner =
    (left : List Section) × (right : List Section) × (before : Text) × (inner : Text)
    × (after : Text) × (page.sections ≡ left ++ s ∷ right)
    × (page'.sections
        ≡ left ++ record s { body = before ++ (inner_of (neutralise body) ++ after) } ∷ right)
    × (page'.preamble ≡ page.preamble)
    × (page'.frontmatter ≡ page.frontmatter)
    × Parts is_word s.body owner (before, inner, after)

allowed-rewrite :
    (o : Option Owner) (owner : Owner)
    → allowed may_rewrite o ≡ some owner
    → (o ≡ some owner) × ((owner ≡ Owner.managed) ⊎ (owner ≡ Owner.derived))
unfolding allowed
allowed-rewrite none owner h = ground (arith, h)
allowed-rewrite (some Owner.human) owner h = ground (arith, h)
allowed-rewrite (some Owner.shared) owner h = ground (arith, h)
allowed-rewrite (some Owner.managed) owner h = (h, inl (sym (some_inj h)))
allowed-rewrite (some Owner.append) owner h = ground (arith, h)
allowed-rewrite (some Owner.derived) owner h = (h, inr (sym (some_inj h)))

module _ (fold : ℕ → Text) (is_word : ℕ → Bool) {F : Type 0} (page page' : Page F)
    (title body : Text) (s : Section) (there : section fold page title ≡ some s) where
  -- The spot at which the section is found.
  with_section-Found :
      (owner : Owner)
      → Found page.page_type
          (canonical_section_title fold page.page_type title)
          page.preamble
          page.sections
          s
          (some (with_section fold page title owner))
  unfolding with_section section Found or_inserted
  with_section-Found owner =
      let canonical = canonical_section_title fold page.page_type title in
      let found =
        find_spot-Found fold page.page_type canonical page.preamble page.sections s there in
      rw found.1 (found.0, refl, found.2, found.3, found.4)

  rewrite_as-KeptBy :
      (owner : Owner)
      → rewrite_as fold is_word page title body (some owner) ≡ some page'
      → KeptBy is_word page page' s body owner
  unfolding rewrite_as KeptBy set_body rewritten Found
  rewrite_as-KeptBy owner h =
      let found = with_section-Found owner in
      let spot = found.0 in
      let same = some_inj found.1 in
      let parts = split_fence is_word spot.here.body owner in
      let e = sym (some_inj h) in
      (
        spot.left,
        spot.right,
        parts.0,
        parts.1,
        parts.2,
        sym found.4 ∙ rw found.2 refl,
        ap (λ (p : Page F). p.sections) e ∙ rw (same, found.2) refl,
        ap (λ (p : Page F). p.preamble) e ∙ rw (same, found.3) refl,
        ap (λ (p : Page F). p.frontmatter) e,
        rw (← found.2) (split_fence-Parts is_word spot.here.body owner),
      )

  -- Rewriting a section that the page has, where it succeeds: the schema gives the section to the
  -- agents, as managed or derived. Every other section stays as it is and in its place, and so do
  -- the title and the frontmatter. In the section all stays but what is between the first opening
  -- mark and the first closing mark after it, which becomes the neutralised text; a section without
  -- a whole fence gets one after its text.
  pub set_fenced-KeptBy :
      set_fenced fold is_word page title body ≡ some page'
      → (owner : Owner) × (owner_of fold page.page_type title ≡ some owner)
        × ((owner ≡ Owner.managed) ⊎ (owner ≡ Owner.derived))
        × KeptBy is_word page page' s body owner
  unfolding set_fenced rewrite_as
  set_fenced-KeptBy h =
      elim (Option-cases (allowed may_rewrite (owner_of fold page.page_type title))) [
        | inl refused ↦ cc (sym (ap (rewrite_as fold is_word page title body) refused) ∙ h)
        | inr (owner, may) ↦
            let a = allowed-rewrite (owner_of fold page.page_type title) owner may in
            (
              owner,
              a.0,
              a.1,
              rewrite_as-KeptBy owner (sym (ap (rewrite_as fold is_word page title body) may) ∙ h),
            )
      ]
