-- ===== src/Threads/Moves/Archive/Turn.antt =====
-- One thread's turn in `archive_ended`: what it does to the vault, and what it leaves for the next.
use mathlib.Core.Path.{subst}
use the_watcher.Prelude.{
  ℕ, suc, ◌≤◌, ◌≡◌, ◌≢◌, refl, ap, sym, ◌∙◌, ◌⊎◌, inl, inr, arith, Bool, false, Option, none, some,
  ◌∷◌, ◌++◌, if◌then◌else◌,
}
use the_watcher.Prelude.{◌==◌, nat_is_eq, list_is_eq, list_eq_iff, ==_refl, Bool-cases}
use the_watcher.Prelude.Dict.{insert, lookup-insert}
use the_watcher.Text.{Text, codes}
use the_watcher.Access.Resolver.{Channel}
use the_watcher.Vault.{whole, Vault, Created, with_revision, without, create_found}
use the_watcher.Vault as V
use the_watcher.Vault.Laws.{at, at-delete}
use the_watcher.Threads.Page.{ThreadState, Content, archive_dir}
use the_watcher.Threads.Equal.{content_is_eq, state_is_eq}
use the_watcher.Threads.Store.{StoredThread, Store, count_of}
use the_watcher.Threads.Store.Laws.{count_of-append, IsPageOf}
use the_watcher.Threads.Create.{page_at}
use the_watcher.Threads.Moves.{add_archived, moved_thread, moved_to_equal, archived_at, archive_one}

content_inj : {c d : Content} → some c ≡ some d → c ≡ d
content_inj h = cc h

none-ne-some : {c : Content} → none ≢ some c
none-ne-some h = cc h

pub two_slashes :
    (count_of 47 (codes "channels/") ≡ 1) × (count_of 47 (codes "channels/archive/") ≡ 2)
unfolding count_of
two_slashes = (refl, refl)

one_slash : (t : Text) → count_of 47 (47 ∷ t) ≡ suc (count_of 47 t)
unfolding count_of
one_slash t = refl

module _ (fold : ℕ → Text) (is_word : ℕ → Bool) (hash : Content → Text) where
  -- The vault after the step: the page goes from its path to the target, which held it or nothing.
  abbrev Moved : StoredThread → Text → Vault Content → Vault Content → Type 0
  Moved t target v after =
      ((p : Text)
        → at p after ≡ (
            if t.path == p
            then none
            else if target == p
            then some (Content.page t.page)
            else at p v))
      × ((at target v ≡ none) ⊎ (at target v ≡ some (Content.page t.page)))

  -- How one thread's turn ends: nothing is done, or the page moves and the channel stays.
  abbrev pub Ends : StoredThread → Text → Store → Option Store → Type 0
  Ends t target s none = Unit
  Ends t target s (some after) = (after.channel ≡ s.channel) × Moved t target s.vault after.vault

  add_archived-store :
      (o : Option StoredThread) (s : Store)
      → ((add_archived fold is_word hash o s).vault ≡ s.vault)
        × ((add_archived fold is_word hash o s).channel ≡ s.channel)
  unfolding add_archived
  add_archived-store none s = (refl, refl)
  add_archived-store (some t) s = (refl, refl)

  moved_thread-store :
      (t : StoredThread) (target revision : Text) (s : Store)
      → ((moved_thread fold is_word hash t target revision s).vault ≡ V.delete t.path s.vault)
        × ((moved_thread fold is_word hash t target revision s).channel ≡ s.channel)
  unfolding moved_thread
  moved_thread-store t target revision s = add_archived-store _ _

  at-moved :
      (t : StoredThread) (target revision : Text) (s : Store) (v : Vault Content)
      → ((p : Text) → at p s.vault ≡ (if target == p then some (Content.page t.page) else at p v))
      → (p : Text)
      → at p (moved_thread fold is_word hash t target revision s).vault
        ≡ (if t.path == p then none else if target == p then some (Content.page t.page) else at p v)
  at-moved t target revision s v h p =
      ap (at p) (moved_thread-store t target revision s).0
      ∙ at-delete t.path p s.vault
      ∙ ap (λ o. if t.path == p then none else o) (h p)

  already_there :
      (target : Text) (c : Content) (v : Vault Content)
      → at target v ≡ some c
      → (p : Text) → at p v ≡ (if target == p then some c else at p v)
  already_there target c v h p = elim (Bool-cases (target == p)) [
    | inl e ↦ rw e (ap (λ q. at q v) (sym ((list_eq_iff target p).0 e)) ∙ h)
    | inr e ↦ rw e refl
  ]

  ends_equal :
      (t : StoredThread) (target : Text) (s : Store) (o : Option Content)
      → at target s.vault ≡ o
      → Ends t target s (moved_to_equal fold is_word hash t target (with_revision hash whole o) s)
  unfolding moved_to_equal with_revision
  ends_equal t target s none h = tt
  ends_equal t target s (some old) h = elim (Bool-cases (old == Content.page t.page)) [
    | inl e ↦
        let there = h ∙ ap some ((content_is_eq.equals_iff old (Content.page t.page)).0 e) in
        rw e (
          (moved_thread-store t target (hash old) s).1,
          (
            at-moved t target (hash old) s s.vault
                (already_there target (Content.page t.page) s.vault there),
            inr there,
          ),
        )
    | inr e ↦ rw e tt
  ]

  ends_created :
      (t : StoredThread) (target : Text) (s : Store) (o : Option Content)
      → at target s.vault ≡ o
      → Ends t target s (
          archived_at fold is_word hash t target
            (create_found hash target (Content.page t.page) o s.vault)
            s)
  unfolding archived_at create_found V.read
  ends_created t target s none h =
      let after = record s {
        vault = record s.vault { files = insert target (Content.page t.page) s.vault.files };
      } in
      (
        (moved_thread-store t target (hash (Content.page t.page)) after).1,
        (
          at-moved t target (hash (Content.page t.page)) after s.vault
              (λ p. lookup-insert target p (Content.page t.page) s.vault.files),
          inl h,
        ),
      )
  ends_created t target s (some old) h = ends_equal t target s (at target s.vault) refl

  pub ends_one :
      (t : StoredThread) (s : Store)
      → Ends t (page_at (archive_dir fold s.channel) t.slug) s (archive_one fold is_word hash t s)
  unfolding archive_one V.create
  ends_one t s =
      let target = page_at (archive_dir fold s.channel) t.slug in
      ends_created t target s (at target s.vault) refl

  -- Where a content is, once threads of a channel have been archived: where it was, or in the
  -- archive under the id of its frontmatter, if it is a thread's page in the state `ended`.
  abbrev pub StillAt : Channel → Vault Content → Text → Content → Type 0
  StillAt ch v p c =
      (at p v ≡ some c)
      ⊎ ((slug : Text) × IsPageOf c ThreadState.ended slug
          × (at (page_at (archive_dir fold ch) slug) v ≡ some c))

  -- A thread whose page stands at its path, or was there already moved; outside the archive.
  abbrev pub Movable : Channel → Vault Content → StoredThread → Type 0
  Movable ch v t =
      ((at t.path v ≡ some (Content.page t.page)) ⊎ (at t.path v ≡ none))
      × (count_of 47 t.path ≤ count_of 47 (archive_dir fold ch))
      × IsPageOf (Content.page t.page) ThreadState.ended t.slug

  outside_archive :
      (ch : Channel) (path slug : Text)
      → count_of 47 path ≤ count_of 47 (archive_dir fold ch)
      → (page_at (archive_dir fold ch) slug == path) ≡ false
  unfolding page_at
  outside_archive ch path slug h = elim (Bool-cases (page_at (archive_dir fold ch) slug == path)) [
    | inr e ↦ e
    | inl e ↦ absurd (
        omega (
          arith,
          h,
          count_of-append 47 (archive_dir fold ch) (47 ∷ (slug ++ codes ".md")),
          ap (count_of 47) ((list_eq_iff (page_at (archive_dir fold ch) slug) path).0 e),
          one_slash (slug ++ codes ".md"),
        ))
  ]

  apart_from_target :
      (ch : Channel) (path slug : Text)
      → count_of 47 path ≤ count_of 47 (archive_dir fold ch)
      → (path == page_at (archive_dir fold ch) slug) ≡ false
  apart_from_target ch path slug h =
      let target = page_at (archive_dir fold ch) slug in
      ground
        (arith, outside_archive ch path slug h, list_eq_iff target path, list_eq_iff path target)

  same_content :
      (t : StoredThread) (p : Text) (v : Vault Content) (c : Content)
      → at p v ≡ some c
      → t.path ≡ p
      → (at t.path v ≡ some (Content.page t.page)) ⊎ (at t.path v ≡ none)
      → c ≡ Content.page t.page
  same_content t p v c e f (inl g) = content_inj (sym e ∙ ap (λ q. at q v) (sym f) ∙ g)
  same_content t p v c e f (inr g) = absurd (none-ne-some (sym g ∙ ap (λ q. at q v) f ∙ e))

  held_content :
      (t : StoredThread) (target p : Text) (v : Vault Content) (c : Content)
      → at p v ≡ some c
      → target ≡ p
      → (at target v ≡ none) ⊎ (at target v ≡ some (Content.page t.page))
      → some (Content.page t.page) ≡ some c
  held_content t target p v c e f (inl g) = absurd (none-ne-some (sym g ∙ ap (λ q. at q v) f ∙ e))
  held_content t target p v c e f (inr g) = sym g ∙ ap (λ q. at q v) f ∙ e

  -- A move takes a content from its path, or leaves it.
  pub content_after_move :
      (ch : Channel) (t : StoredThread) (v after : Vault Content) (p : Text) (c : Content)
      → Movable ch v t
      → Moved t (page_at (archive_dir fold ch) t.slug) v after
      → at p v ≡ some c
      → StillAt ch after p c
  content_after_move ch t v after p c (at_path, below, is_ended) (h, held) e =
      let target = page_at (archive_dir fold ch) t.slug in
      let apart = apart_from_target ch t.path t.slug below in
      elim (Bool-cases (t.path == p)) [
        | inl f ↦
            let same_page = same_content t p v c e ((list_eq_iff t.path p).0 f) at_path in
            inr (
              t.slug,
              subst (λ x. IsPageOf x ThreadState.ended t.slug) (sym same_page) is_ended,
              h target ∙ rw (apart, ==_refl target) (ap some (sym same_page)),
            )
        | inr f ↦ elim (Bool-cases (target == p)) [
          | inl g ↦
              inl
                (h p ∙ rw (f, g) (held_content t target p v c e ((list_eq_iff target p).0 g) held))
          | inr g ↦ inl (h p ∙ rw (f, g) e)
        ]
      ]

  pub Movable-after :
      (ch : Channel) (t u : StoredThread) (v after : Vault Content)
      → Moved t (page_at (archive_dir fold ch) t.slug) v after
      → Movable ch v u
      → Movable ch after u
  Movable-after ch t u v after (h, held) (at_path, below, is_ended) =
      let off_target = outside_archive ch u.path t.slug below in
      elim (Bool-cases (t.path == u.path)) [
        | inl f ↦ (inr (h u.path ∙ rw f refl), below, is_ended)
        | inr f ↦ (rw (h u.path, f, off_target) at_path, below, is_ended)
      ]

  -- What is where it was, or archived, before a part of the loop, is so after it.
  pub then_still :
      (ch : Channel) (v after : Vault Content) (p : Text) (c : Content)
      → ((q : Text) → at q v ≡ some c → StillAt ch after q c)
      → StillAt ch v p c
      → StillAt ch after p c
  then_still ch v after p c h (inl e) = h p e
  then_still ch v after p c h (inr (slug, is_ended, e)) =
      elim (h (page_at (archive_dir fold ch) slug) e) [
        | inl g ↦ inr (slug, is_ended, g)
        | inr found ↦ inr found
      ]
