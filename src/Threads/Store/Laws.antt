-- ===== src/Threads/Store/Laws.antt =====
-- What the threads of a store say of the vault that they are read from.
use mathlib.Core.Path.{subst}
use the_watcher.Prelude.{
  ℕ, ◌+◌, ◌≡◌, refl, ap, sym, ◌∙◌, inl, inr, arith, Bool, true, false, Option, none, some, List, [],
  ◌∷◌, ◌++◌,
}
use the_watcher.Prelude.{
  ◌==◌, nat_is_eq, list_is_eq, string_is_eq, nat_eq, nat_eq_iff, All, keep_if, Bool-cases,
}
use the_watcher.Prelude.Dict.{Dict, values, insert}
use the_watcher.Text.{Text}
use the_watcher.Text.Order.{insert_by, sort_by}
use the_watcher.Vault.{whole, Vault, with_revision, read, list}
use the_watcher.Vault.Laws.{at}
use the_watcher.Wiki.Page.{Page}
use the_watcher.Threads.Page.{ThreadMeta, ThreadState, Front, Content, thread_dir}
use the_watcher.Threads.Store.{
  StoredThread, Store, count_of, thread_of_meta, to_thread, add_thread, add_read, load_from, load,
  cached, live_of,
}

pub All-values-insert {ℓ} :
    {V : Type 0} (P : V → Type ℓ) (k : Text) (v : V) (d : Dict Text V)
    → P v
    → All P (values d)
    → All P (values (insert k v d))
unfolding insert
All-values-insert P k v [] h hs = (h, tt)
All-values-insert P k v ((j, w) ∷ d) h hs = elim (Bool-cases (j == k)) [
  | inl e ↦ rw e (h, hs.1)
  | inr e ↦ rw e (hs.0, All-values-insert P k v d h hs.1)
]

module _ {A : Type 0} (le : A → A → Bool) (P : A → Type 0) where
  All-insert_by : (a : A) (xs : List A) → P a → All P xs → All P (insert_by le a xs)
  unfolding insert_by
  All-insert_by a [] h hs = (h, tt)
  All-insert_by a (b ∷ bs) h hs = elim (Bool-cases (le a b)) [
    | inl e ↦ rw e (h, hs)
    | inr e ↦ rw e (hs.0, All-insert_by a bs h hs.1)
  ]

  pub All-sort_by : (xs : List A) → All P xs → All P (sort_by le xs)
  unfolding sort_by
  All-sort_by [] h = tt
  All-sort_by (x ∷ xs) h = All-insert_by x (sort_by le xs) h.0 (All-sort_by xs h.1)

pub All-keep_if_both :
    {A : Type 0} (P : A → Type 0) (p : A → Bool) (xs : List A)
    → All P xs
    → All (λ x. P x × (p x ≡ true)) (keep_if p xs)
unfolding keep_if
All-keep_if_both P p [] h = tt
All-keep_if_both P p (x ∷ xs) h = elim (Bool-cases (p x)) [
  | inl e ↦ rw e ((h.0, e), All-keep_if_both P p xs h.1)
  | inr e ↦ rw e (All-keep_if_both P p xs h.1)
]

pub count_of-append : (c : ℕ) (s t : Text) → count_of c (s ++ t) ≡ count_of c s + count_of c t
unfolding count_of
count_of-append c [] t = omega arith
count_of-append c (d ∷ s) t = ground (arith, count_of-append c s t)

-- The content is a thread's page, in this state and with this id.
abbrev pub IsPageOf : Content → ThreadState → Text → Type 0
IsPageOf c state_is slug =
    (p : Page Front) × (m : ThreadMeta) × (c ≡ Content.page p)
    × (p.page_type ≡ "thread")
    × (p.frontmatter ≡ Front.thread_front m)
    × (m.state ≡ state_is)
    × (m.slug ≡ slug)

module _ (fold : ℕ → Text) (is_word : ℕ → Bool) where
  -- A thread is what the store reads at its path.
  abbrev pub Stored : (Content → Text) → Vault Content → StoredThread → Type 0
  Stored hash v t =
      (to_thread fold is_word t.path (Content.page t.page) (hash (Content.page t.page)) t.archived
        ≡ some t)
      × (at t.path v ≡ some (Content.page t.page))

  thread_inj : {t u : StoredThread} → some t ≡ some u → t ≡ u
  thread_inj h = cc h

  fields_of_meta :
      (path : Text) (p : Page Front) (revision : Text) (archived : Bool) (front : Front)
      (t : StoredThread)
      → thread_of_meta fold is_word path p revision archived front ≡ some t
      → (t.path ≡ path) × (t.page ≡ p) × (t.archived ≡ archived)
  unfolding thread_of_meta
  fields_of_meta path p revision archived (Front.thread_front m) t h =
      let e = sym (thread_inj h) in (ap (λ x. x.path) e, ap (λ x. x.page) e, ap (λ x. x.archived) e)
  fields_of_meta path p revision archived (Front.channel_front m) t h = absurd (cc h)
  fields_of_meta path p revision archived Front.other_front t h = absurd (cc h)

  fields_of_thread :
      (path : Text) (content : Content) (revision : Text) (archived : Bool) (t : StoredThread)
      → to_thread fold is_word path content revision archived ≡ some t
      → (t.path ≡ path) × (Content.page t.page ≡ content) × (t.archived ≡ archived)
  unfolding to_thread
  fields_of_thread path (Content.broken text) revision archived t h = absurd (cc h)
  fields_of_thread path (Content.page p) revision archived t h =
      elim (Bool-cases (p.page_type == "thread")) [
        | inl e ↦
            let (a, b, c) = fields_of_meta path p revision archived p.frontmatter t (rw e at h) in
            (a, ap Content.page b, c)
        | inr e ↦ absurd (cc (rw e at h))
      ]

  meta_of_thread :
      (path : Text) (p : Page Front) (revision : Text) (archived : Bool) (front : Front)
      (t : StoredThread)
      → thread_of_meta fold is_word path p revision archived front ≡ some t
      → (m : ThreadMeta) × (front ≡ Front.thread_front m) × (m.state ≡ t.state) × (m.slug ≡ t.slug)
  unfolding thread_of_meta
  meta_of_thread path p revision archived (Front.thread_front m) t h =
      let e = thread_inj h in (m, refl, ap (λ x. x.state) e, ap (λ x. x.slug) e)
  meta_of_thread path p revision archived (Front.channel_front m) t h = absurd (cc h)
  meta_of_thread path p revision archived Front.other_front t h = absurd (cc h)

  pub to_thread-IsPageOf :
      (path : Text) (p : Page Front) (revision : Text) (archived : Bool) (t : StoredThread)
      → to_thread fold is_word path (Content.page p) revision archived ≡ some t
      → IsPageOf (Content.page p) t.state t.slug
  unfolding to_thread
  to_thread-IsPageOf path p revision archived t h = elim (Bool-cases (p.page_type == "thread")) [
    | inl e ↦
        let (m, a, b, c) = meta_of_thread path p revision archived p.frontmatter t (rw e at h) in
        (p, m, refl, (string_is_eq.equals_iff p.page_type "thread").0 e, a, b, c)
    | inr e ↦ absurd (cc (rw e at h))
  ]

  module _ (hash : Content → Text) (v : Vault Content) (depth : ℕ) (archived : Bool) where
    abbrev pub IsLoaded : StoredThread → Type 0
    IsLoaded t = Stored hash v t × (count_of 47 t.path ≡ depth)

    IsLoaded-add_thread :
        (path : Text) (content : Content) (o : Option StoredThread) (out : Dict Text StoredThread)
        → at path v ≡ some content
        → count_of 47 path ≡ depth
        → to_thread fold is_word path content (hash content) archived ≡ o
        → All IsLoaded (values out)
        → All IsLoaded (values (add_thread fold is_word o out))
    unfolding add_thread
    IsLoaded-add_thread path content none out here deep e h = h
    IsLoaded-add_thread path content (some t) out here deep e h =
        let (a, b, c) = fields_of_thread path content (hash content) archived t e in
        All-values-insert IsLoaded t.slug t out
          (
            (
              (λ i. to_thread fold is_word (a i) (b i) (hash (b i)) (c i)) ∙ e,
              ap (λ q. at q v) a ∙ here ∙ sym (ap some b),
            ),
            ap (count_of 47) a ∙ deep,
          )
          h

    IsLoaded-add_read :
        (path : Text) (o : Option Content) (out : Dict Text StoredThread)
        → at path v ≡ o
        → count_of 47 path ≡ depth
        → All IsLoaded (values out)
        → All IsLoaded
            (values (add_read fold is_word hash path (with_revision hash whole o) archived out))
    unfolding add_read with_revision
    IsLoaded-add_read path none out here deep h = h
    IsLoaded-add_read path (some content) out here deep h =
        IsLoaded-add_thread path content
          (to_thread fold is_word path content (hash content) archived) out here deep refl h

    IsLoaded-load_from :
        (paths : List Text) (out : Dict Text StoredThread)
        → All IsLoaded (values out)
        → All IsLoaded (values (load_from fold is_word hash depth archived v paths out))
    unfolding load_from read
    IsLoaded-load_from [] out h = h
    IsLoaded-load_from (path ∷ paths) out h = elim (Bool-cases (nat_eq (count_of 47 path) depth)) [
      | inl e ↦ rw e (
          IsLoaded-load_from paths
            (add_read fold is_word hash path (with_revision hash whole (at path v)) archived out)
            (IsLoaded-add_read path (at path v) out refl ((nat_eq_iff (count_of 47 path) depth).0 e)
              h))
      | inr e ↦ rw e (IsLoaded-load_from paths out h)
    ]

  -- Every thread that is read of a directory stands in the vault, right in the directory.
  pub IsLoaded-load :
      (hash : Content → Text) (v : Vault Content) (prefix : Text) (archived : Bool)
      → All
          (IsLoaded hash v (count_of 47 prefix + 1) archived)
          (values (load fold is_word hash prefix archived v))
  unfolding load
  IsLoaded-load hash v prefix archived =
      IsLoaded-load_from hash v (count_of 47 prefix + 1) archived (list prefix v) [] tt

  pub IsLoaded-live_of :
      (hash : Content → Text) (s : Store)
      → s.live ≡ none
      → All
          (IsLoaded hash s.vault (count_of 47 (thread_dir fold s.channel) + 1) false)
          (values (live_of fold is_word hash s))
  unfolding live_of cached
  IsLoaded-live_of hash s new =
      subst
        (λ o.
          All (IsLoaded hash s.vault (count_of 47 (thread_dir fold s.channel) + 1) false)
            (values (cached o (load fold is_word hash (thread_dir fold s.channel) false s.vault))))
        (sym new) (IsLoaded-load hash s.vault (thread_dir fold s.channel) false)
