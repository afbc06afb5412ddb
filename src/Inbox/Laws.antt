-- ===== src/Inbox/Laws.antt =====
-- Posting keeps one item for each subject, and loses none; done lines are bounded.
use mathlib.Core.Path.{subst}
use the_watcher.Prelude.{take, take-append-drop}
use the_watcher.Prelude.{
  All, All-map_of, length-append, min, ◌+◌, ℕ, ◌-◌, ◌≡◌, refl, ap, sym, ◌∙◌, ◌⊎◌, inl, inr, arith,
  Bool, true, false, not, ◌||◌, Option, none, some, List, [], ◌∷◌, ◌++◌, map, has, keep_if,
  contains, drop, length, Bool-cases, suc, zero,
}
use the_watcher.Prelude.{nat_is_eq, list_is_eq, option_is_eq, list_eq_iff, option_eq_iff}
use the_watcher.Text.{Text}
use the_watcher.Inbox.{
  is_given, InboxPost, InboxItem, same_subject, merged, post_one, item_of, post_all, done_kept,
  last_done, ack, or_text,
}

-- No two items are about the same thread.
abbrev pub OneEach : List InboxItem → Type 0
OneEach [] = Unit
OneEach (i ∷ items) = (has (λ j. same_subject j.about i.about) items ≡ false) × OneEach items

same_subject_sym : (a b : InboxPost) → same_subject a b ≡ true → same_subject b a ≡ true
unfolding same_subject
same_subject_sym a b h =
    let slugs = (option_eq_iff a.thread_slug b.thread_slug).0 (ground (arith, h)) in
    ground (
      arith,
      h,
      list_eq_iff a.kind b.kind,
      list_eq_iff b.kind a.kind,
      option_eq_iff a.channel b.channel,
      option_eq_iff b.channel a.channel,
      (option_eq_iff b.thread_slug a.thread_slug).1 (sym slugs),
      ap is_given slugs,
    )

same_subject_apart : (a b : InboxPost) → same_subject a b ≡ false → same_subject b a ≡ false
same_subject_apart a b h = ground (arith, h, same_subject_sym b a)

same_subject-merged :
    (post : InboxPost) (i : InboxItem) (b : InboxPost)
    → same_subject (merged post i).about b ≡ same_subject i.about b
unfolding same_subject merged
same_subject-merged post i b = refl

has-merged :
    (post : InboxPost) (i : InboxItem) (items : List InboxItem)
    → has (λ j. same_subject j.about (merged post i).about) items
      ≡ has (λ j. same_subject j.about i.about) items
unfolding same_subject merged
has-merged post i items = refl

-- Posting about another subject brings no item of a subject that was not there.
has-post_one :
    (new : InboxItem) (items : List InboxItem) (a : InboxPost)
    → same_subject new.about a ≡ false
    → has (λ j. same_subject j.about a) items ≡ false
    → has (λ j. same_subject j.about a) (post_one new items) ≡ false
unfolding post_one
has-post_one new [] a n h = rw n refl
has-post_one new (i ∷ items) a n h = elim (Bool-cases (same_subject i.about new.about)) [
  | inl e ↦ rw (e, same_subject-merged new.about i a) h
  | inr e ↦ rw e (ground (arith, h, has-post_one new items a n))
]

OneEach-post_one :
    (new : InboxItem) (items : List InboxItem) → OneEach items → OneEach (post_one new items)
unfolding post_one
OneEach-post_one new [] h = (refl, tt)
OneEach-post_one new (i ∷ items) (first, rest) =
    elim (Bool-cases (same_subject i.about new.about)) [
      | inl e ↦ rw e (has-merged new.about i items ∙ first, rest)
      | inr e ↦ rw e (
        has-post_one new items i.about (same_subject_apart i.about new.about e) first,
        OneEach-post_one new items rest,
      )
    ]

-- `j` is `i` after some posts: its id, its `since` if it had one, and its trigger if it was set.
abbrev pub Kept : InboxItem → InboxItem → Type 0
Kept i j =
    (j.id ≡ i.id)
    × ((since : Option Text) × (j.about.since ≡ or_text i.about.since since))
    × ((trigger : Bool) × (j.about.trigger ≡ (i.about.trigger || trigger)))

or_text_same : (a : Option Text) → a ≡ or_text a a
or_text_same none = refl
or_text_same (some []) = refl
or_text_same (some (c ∷ t)) = refl

or_text_assoc : (a b c : Option Text) → or_text (or_text a b) c ≡ or_text a (or_text b c)
or_text_assoc none b c = refl
or_text_assoc (some []) b c = refl
or_text_assoc (some (d ∷ t)) b c = refl

Kept-refl : (i : InboxItem) → Kept i i
Kept-refl i = (refl, (i.about.since, or_text_same i.about.since), (i.about.trigger, ground arith))

Kept-merged : (post : InboxPost) (i : InboxItem) → Kept i (merged post i)
unfolding merged
Kept-merged post i = (refl, (post.since, refl), (post.trigger, refl))

Kept-trans : (i j k : InboxItem) → Kept i j → Kept j k → Kept i k
Kept-trans i j k (a, (b, bs), (c, cs)) (d, (e, es), (f, fs)) = (
  d ∙ a,
  (or_text b e, es ∙ ap (λ o. or_text o e) bs ∙ or_text_assoc i.about.since b e),
  (c || f, ground (arith, cs, fs)),
)

-- The item is among the others, as some posts left it.
abbrev pub Survives : List InboxItem → InboxItem → Type 0
Survives [] i = ⊥
Survives (j ∷ items) i = Kept i j ⊎ Survives items i

Survives-later :
    (items later : List InboxItem) (i j : InboxItem)
    → Kept i j
    → Survives items j
    → Survives items i
Survives-later [] later i j k h = h
Survives-later (x ∷ items) later i j k (inl h) = inl (Kept-trans i j x k h)
Survives-later (x ∷ items) later i j k (inr h) = inr (Survives-later items later i j k h)

Survives-trans :
    (items later : List InboxItem) (i : InboxItem)
    → Survives items i
    → All (Survives later) items
    → Survives later i
Survives-trans [] later i h all = absurd h
Survives-trans (j ∷ items) later i (inl h) all = Survives-later later later i j h all.0
Survives-trans (j ∷ items) later i (inr h) all = Survives-trans items later i h all.1

All-Survives_more :
    (x : InboxItem) (later items : List InboxItem)
    → All (Survives later) items
    → All (Survives (x ∷ later)) items
All-Survives_more x later items h =
    All-map_of (Survives later) (Survives (x ∷ later)) items (λ i s. inr s) h

All-Survives_refl : (items : List InboxItem) → All (Survives items) items
All-Survives_refl [] = tt
All-Survives_refl (i ∷ items) =
    (inl (Kept-refl i), All-Survives_more i items items (All-Survives_refl items))

post_one_hit :
    (new i : InboxItem) (items : List InboxItem)
    → same_subject i.about new.about ≡ true
    → post_one new (i ∷ items) ≡ merged new.about i ∷ items
unfolding post_one
post_one_hit new i items e = rw e refl

post_one_miss :
    (new i : InboxItem) (items : List InboxItem)
    → same_subject i.about new.about ≡ false
    → post_one new (i ∷ items) ≡ i ∷ post_one new items
unfolding post_one
post_one_miss new i items e = rw e refl

Survives-post_one :
    (new : InboxItem) (items : List InboxItem) → All (Survives (post_one new items)) items
Survives-post_one new [] = tt
Survives-post_one new (i ∷ items) = elim (Bool-cases (same_subject i.about new.about)) [
  | inl e ↦
      subst (λ l. All (Survives l) (i ∷ items)) (sym (post_one_hit new i items e))
        (
          inl (Kept-merged new.about i),
          All-Survives_more (merged new.about i) items items (All-Survives_refl items),
        )
  | inr e ↦
      subst (λ l. All (Survives l) (i ∷ items)) (sym (post_one_miss new i items e))
        (
          inl (Kept-refl i),
          All-Survives_more i (post_one new items) items (Survives-post_one new items),
        )
]

module _ (mint : InboxPost → ℕ → Text) (now : ℕ) where
  -- If no two items of an inbox are about the same thread, none are after any posts.
  pub post_all-OneEach :
      (posts : List InboxPost) (items : List InboxItem)
      → OneEach items
      → OneEach (post_all mint now posts items)
  unfolding post_all
  post_all-OneEach [] items h = h
  post_all-OneEach (p ∷ posts) items h =
      post_all-OneEach posts (post_one (item_of mint now p) items)
        (OneEach-post_one (item_of mint now p) items h)

  -- Every pending item is pending after any posts, with its id, with the `since` that it had, and
  -- with its trigger if that was set.
  pub post_all-Survives :
      (posts : List InboxPost) (items : List InboxItem)
      → All (Survives (post_all mint now posts items)) items
  unfolding post_all
  post_all-Survives [] items = All-Survives_refl items
  post_all-Survives (p ∷ posts) items =
      let next = post_one (item_of mint now p) items in
      let last = post_all mint now posts next in
      All-map_of (Survives next) (Survives last) items
        (λ i h. Survives-trans next last i h (post_all-Survives posts next))
        (Survives-post_one (item_of mint now p) items)

length-drop : {A : Type 0} (n : ℕ) (xs : List A) → length (drop n xs) ≡ length xs - n
length-drop zero xs = omega arith
length-drop (suc n) [] = omega arith
length-drop (suc n) (x ∷ xs) = omega (arith, length-drop n xs)

length-map_of : {A B : Type 0} (f : A → B) (xs : List A) → length (map f xs) ≡ length xs
length-map_of f [] = refl
length-map_of f (x ∷ xs) = ap suc (length-map_of f xs)

-- The pending items, in order, are dealt to those that are kept and those that leave: an item leaves
-- if its id is acknowledged, and is kept if not.
abbrev pub Dealt : List Text → List InboxItem → List InboxItem → List InboxItem → Type 0
Dealt wanted [] kept leaving = (kept ≡ []) × (leaving ≡ [])
Dealt wanted (i ∷ items) kept leaving =
    ((contains wanted i.id ≡ true)
      × ((rest : List InboxItem) × (leaving ≡ i ∷ rest) × Dealt wanted items kept rest))
    ⊎ ((contains wanted i.id ≡ false)
        × ((rest : List InboxItem) × (kept ≡ i ∷ rest) × Dealt wanted items rest leaving))

keep_if-Dealt :
    (wanted : List Text) (items : List InboxItem)
    → Dealt wanted items
        (keep_if (λ i. not (contains wanted i.id)) items)
        (keep_if (λ i. contains wanted i.id) items)
unfolding keep_if
keep_if-Dealt wanted [] = (refl, refl)
keep_if-Dealt wanted (i ∷ items) = elim (Bool-cases (contains wanted i.id)) [
  | inl e ↦
      inl (
        e,
        (keep_if (λ j. contains wanted j.id) items, rw e refl, rw e (keep_if-Dealt wanted items)),
      )
  | inr e ↦ inr (
    e,
    (keep_if (λ j. not (contains wanted j.id)) items, rw e refl, rw e (keep_if-Dealt wanted items)),
  )
]

-- `ack` of one id or more: the pending items with these ids leave and all others are still pending,
-- in order; the done lines are the last 50 of those that were there and a line for each item that
-- has left.
pub ack_lem :
    (line : InboxItem → Text) (id : Text) (ids : List Text) (pending : List InboxItem)
    (finished : List Text)
    → (leaving : List InboxItem) × (dropped : List Text) × Dealt
        (id ∷ ids)
        pending
        (ack line (id ∷ ids) (pending, finished)).0
        leaving
      × (dropped ++ (ack line (id ∷ ids) (pending, finished)).1 ≡ finished ++ map line leaving)
      × (length (ack line (id ∷ ids) (pending, finished)).1
          ≡ min done_kept (length finished + length leaving))
unfolding ack last_done
ack_lem line id ids pending finished =
    let leaving = keep_if (λ i. contains (id ∷ ids) i.id) pending in
    let lines = finished ++ map line leaving in
    (
      leaving,
      take (length lines - done_kept) lines,
      keep_if-Dealt (id ∷ ids) pending,
      take-append-drop (length lines - done_kept) lines,
      omega (
        arith,
        length-drop (length lines - done_kept) lines,
        length-append finished (map line leaving),
        length-map_of line leaving,
      ),
    )
