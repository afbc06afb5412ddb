-- ===== src/Threads/Relocate/Laws.antt =====
-- Following a channel's new title loses no page.
use the_watcher.Prelude.{
  ℕ, ◌≡◌, ◌≢◌, refl, ap, sym, ◌∙◌, ◌⊎◌, inl, inr, arith, false, Option, none, some, List, [], ◌∷◌,
  ◌++◌, if◌then◌else◌,
}
use the_watcher.Prelude.{◌==◌, nat_is_eq, list_is_eq, list_eq_iff, ==_refl, Bool-cases}
use the_watcher.Prelude.Dict.{insert, lookup-insert}
use the_watcher.Text.{Text}
use the_watcher.Access.Resolver.{Channel, channel_dir, title_or_jid}
use the_watcher.Vault.{Vault, Created, create_found, content_at}
use the_watcher.Vault as V
use the_watcher.Vault.Laws.{at, at-delete}
use the_watcher.Threads.Page.{Content, channel_page_path, thread_dir, archive_dir}
use the_watcher.Wiki.Page.{Page}
use the_watcher.Threads.Page.{Front}
use the_watcher.Threads.Moves.{Accepts, set_front}
use the_watcher.Threads.Revise.{then_page, set_title}
use the_watcher.Threads.Relocate.{
  moves_of, with_slug, retitled_page, content_of_page, retitled_content, after_copy, copy_found,
  moved_all, moved_rest, moved_from, relocate,
}

-- The content stands somewhere in the vault.
abbrev pub StandsIn : Vault Content → Content → Type 0
StandsIn v c = (q : Text) × (at q v ≡ some c)

some-ne-none : {c : Content} → some c ≢ none
some-ne-none h = cc h

ne_of_contents :
    (v : Vault Content) (p q : Text) (c : Content)
    → at p v ≡ some c
    → at q v ≡ none
    → (p == q) ≡ false
ne_of_contents v p q c e f = elim (Bool-cases (p == q)) [
  | inl g ↦ absurd (some-ne-none (sym e ∙ ap (λ x. at x v) ((list_eq_iff p q).0 g) ∙ f))
  | inr g ↦ g
]

ne_target :
    (v : Vault Content) (p q : Text) (c : Content)
    → at p v ≡ some c
    → at q v ≡ none
    → (q == p) ≡ false
ne_target v p q c e f = ground (arith, ne_of_contents v p q c e f, list_eq_iff p q, list_eq_iff q p)

module _ (hash : Content → Text) where
  -- The vault after a page has been copied to a free path and then deleted.
  abbrev copied : Text → Text → Content → Vault Content → Vault Content
  copied source target content v =
      V.delete source (record v { files = insert target content v.files })

  at-copied :
      (source target p : Text) (content : Content) (v : Vault Content)
      → at p (copied source target content v)
        ≡ (if source == p then none else if target == p then some content else at p v)
  at-copied source target p content v =
      at-delete source p (record v { files = insert target content v.files })
      ∙ ap (λ o. if source == p then none else o) (lookup-insert target p content v.files)

  other_stands :
      (source target p : Text) (left : List Text) (content c : Content) (o : Option Content)
      (v : Vault Content)
      → at target v ≡ o
      → at p v ≡ some c
      → (source == p) ≡ false
      → at p (after_copy source left (create_found hash target content o v)).1 ≡ some c
  unfolding after_copy create_found
  other_stands source target p left content c (some old) v h e ne = e
  other_stands source target p left content c none v h e ne =
      at-copied source target p content v ∙ rw (ne, ne_target v p target c e h) e

  source_stands :
      (source target : Text) (left : List Text) (c : Content) (o : Option Content)
      (v : Vault Content)
      → at target v ≡ o
      → at source v ≡ some c
      → StandsIn (after_copy source left (create_found hash target c o v)).1 c
  unfolding after_copy create_found
  source_stands source target left c (some old) v h e = (source, e)
  source_stands source target left c none v h e = (
    target,
    at-copied source target target c v
        ∙ rw (ne_of_contents v source target c e h, ==_refl target) refl,
  )

  copy_stands :
      (source target p : Text) (left : List Text) (c : Content) (o : Option Content)
      (v : Vault Content)
      → at source v ≡ o
      → at p v ≡ some c
      → StandsIn (copy_found hash source target left o v).1 c
  unfolding copy_found V.create
  copy_stands source target p left c none v h e = (p, e)
  copy_stands source target p left c (some content) v h e = elim (Bool-cases (source == p)) [
    | inl f ↦
        let same : some content ≡ some c =
          sym h ∙ ap (λ x. at x v) ((list_eq_iff source p).0 f) ∙ e in
        let (q, stands) = source_stands source target left content (at target v) v refl h in
        (q, stands ∙ same)
    | inr f ↦ (p, other_stands source target p left content c (at target v) v refl e f)
  ]

  moved_all_stands :
      (moves : List (Text × Text)) (left : List Text) (c : Content) (v : Vault Content)
      → StandsIn v c
      → StandsIn (moved_all hash moves left v).1 c
  unfolding moved_all content_at
  moved_all_stands [] left c v s = s
  moved_all_stands ((source, target) ∷ moves) left c v (p, e) =
      let next = copy_found hash source target left (at source v) v in
      moved_all_stands moves next.0 c next.1
        (copy_stands source target p left c (at source v) v refl e)

  -- Why the moves may raise: the channel's page cannot be parsed, or the edit of its title or of its
  -- slug is refused.
  abbrev pub CannotRetitle : Accepts → Text → Text → Content → Type 0
  CannotRetitle accepts title slug (Content.broken text) = Unit
  CannotRetitle accepts title slug (Content.page page) =
      (set_title accepts title page ≡ none)
      ⊎ ((titled : Page Front) × (set_title accepts title page ≡ some titled)
          × (set_front accepts (with_slug slug titled.frontmatter) titled ≡ none))

  -- How the moves end: they raise at such a page, or every page stands.
  abbrev pub EndsWell :
      Accepts
      → Text
      → Text
      → Text
      → Vault Content
      → Content
      → Option (List Text × Vault Content)
      → Type 0
  EndsWell accepts title slug source v c none =
      (content : Content) × (at source v ≡ some content) × CannotRetitle accepts title slug content
  EndsWell accepts title slug source v c (some (left, after)) = StandsIn after c

  slug_ends :
      (accepts : Accepts) (title slug source target p : Text) (moves : List (Text × Text))
      (page titled : Page Front) (c : Content) (v : Vault Content) (o : Option (Page Front))
      → at source v ≡ some (Content.page page)
      → at p v ≡ some c
      → (source == p) ≡ false
      → set_title accepts title page ≡ some titled
      → set_front accepts (with_slug slug titled.frontmatter) titled ≡ o
      → EndsWell accepts title slug source v c
          (moved_rest hash source target moves (content_of_page o) v)
  unfolding content_of_page moved_rest copy_found V.create
  slug_ends accepts title slug source target p moves page titled c v none h e ne f g =
      (Content.page page, h, inr (titled, f, g))
  slug_ends accepts title slug source target p moves page titled c v (some next) h e ne f g =
      moved_all_stands moves _ c _
        (p, other_stands source target p [] _ c (at target v) v refl e ne)

  title_ends :
      (accepts : Accepts) (title slug source target p : Text) (moves : List (Text × Text))
      (page : Page Front) (c : Content) (v : Vault Content) (o : Option (Page Front))
      → at source v ≡ some (Content.page page)
      → at p v ≡ some c
      → (source == p) ≡ false
      → set_title accepts title page ≡ o
      → EndsWell accepts title slug source v c (
          moved_rest hash source target moves
            (content_of_page (
              then_page o (λ titled. set_front accepts (with_slug slug titled.frontmatter) titled)))
            v)
  unfolding then_page content_of_page moved_rest
  title_ends accepts title slug source target p moves page c v none h e ne f =
      (Content.page page, h, inl f)
  title_ends accepts title slug source target p moves page c v (some titled) h e ne f =
      slug_ends accepts title slug source target p moves page titled c v _ h e ne f refl

  retitled_ends :
      (accepts : Accepts) (title slug source target p : Text) (moves : List (Text × Text))
      (content c : Content) (v : Vault Content)
      → at source v ≡ some content
      → at p v ≡ some c
      → (source == p) ≡ false
      → EndsWell accepts title slug source v c
          (moved_rest hash source target moves (retitled_content accepts title slug content) v)
  unfolding retitled_content retitled_page moved_rest
  retitled_ends accepts title slug source target p moves (Content.broken text) c v h e ne =
      (Content.broken text, h, tt)
  retitled_ends accepts title slug source target p moves (Content.page page) c v h e ne =
      title_ends accepts title slug source target p moves page c v _ h e ne refl

  moved_from_ends :
      (accepts : Accepts) (title slug source target p : Text) (moves : List (Text × Text))
      (c : Content) (o : Option Content) (v : Vault Content)
      → at source v ≡ o
      → at p v ≡ some c
      → (source == p) ≡ false
      → EndsWell accepts title slug source v c
          (moved_from hash accepts title slug source target moves o v)
  unfolding moved_from
  moved_from_ends accepts title slug source target p moves c none v h e ne =
      moved_all_stands moves [] c v (p, e)
  moved_from_ends accepts title slug source target p moves c (some content) v h e ne =
      retitled_ends accepts title slug source target p moves content c v h e ne

module _ (fold : ℕ → Text) (hash : Content → Text) where
  -- `relocate` raises only if the channel's page cannot be parsed, or if the edit of its title or of
  -- its slug is refused; otherwise each content of the vault, but for the channel's page itself, still
  -- stands at a path of it.
  pub relocate_lem :
      (accepts : Accepts) (old new : Channel) (v : Vault Content) (p : Text) (c : Content)
      → at p v ≡ some c
      → (channel_page_path fold old == p) ≡ false
      → EndsWell hash accepts
          (title_or_jid new.title new.jid)
          (channel_dir fold new)
          (channel_page_path fold old)
          v
          c
          (relocate fold hash accepts old new v)
  unfolding relocate content_at
  relocate_lem accepts old new v p c e ne =
      elim (Bool-cases (channel_dir fold old == channel_dir fold new)) [
        | inl f ↦ rw f (p, e)
        | inr f ↦ rw f (
            moved_from_ends hash accepts (title_or_jid new.title new.jid) (channel_dir fold new)
              (channel_page_path fold old) (channel_page_path fold new) p
              (moves_of v (thread_dir fold old) (thread_dir fold new)
                ++ moves_of v (archive_dir fold old) (archive_dir fold new))
              c (at (channel_page_path fold old) v) v refl e ne)
      ]
