-- ===== src/Threads/Equal.antt =====
-- Equality of the contents of files, as Python's `==` compares their texts: through the fields.
use the_watcher.Prelude.{
  ℕ, zero, suc, ◌≡◌, refl, ap, sym, ◌∙◌, ◌↔◌, String, Bool, true, ◌&&◌, Option, none, some, List,
  [], arith,
}
use the_watcher.Prelude.{Comparable, ◌==◌, nat_is_eq, string_is_eq, option_is_eq, list_is_eq}
use the_watcher.Prelude.Dict.{Dict}
use the_watcher.Text.{Text}
use the_watcher.Wiki.Page.{Section, Page}
use the_watcher.Threads.Page.{ThreadState, ThreadMeta, ChannelMeta, Front, Content}

module _ {A B : Type 0} (code : A → B) (back : B → A) (h : (a : A) → back (code a) ≡ a) where
  pub through_iff : ⦃e : Comparable B⦄ (x y : A) → (code x == code y ≡ true) ↔ (x ≡ y)
  through_iff ⦃e⦄ x y = (
    λ p. sym (h x) ∙ ap back ((e.equals_iff (code x) (code y)).0 p) ∙ h y,
    λ p. (e.equals_iff (code x) (code y)).1 (ap code p),
  )

  abbrev pub through : ⦃e : Comparable B⦄ → Comparable A
  through ⦃e⦄ = record { equals = λ x y. code x == code y; equals_iff = λ x y. through_iff x y }

module _ {A B : Type 0} ⦃a : Comparable A⦄ ⦃b : Comparable B⦄ where
  abbrev pair_eq : A × B → A × B → Bool
  pair_eq (x, y) (u, v) = x == u && y == v

  pub pair_eq_iff : (p q : A × B) → (pair_eq p q ≡ true) ↔ (p ≡ q)
  pair_eq_iff (x, y) (u, v) = ground (arith, a.equals_iff x u, b.equals_iff y v)

  instance abbrev pub pair_is_eq : Comparable (A × B)
  pair_is_eq = record { equals = pair_eq; equals_iff = pair_eq_iff }

abbrev state_code : ThreadState → ℕ
state_code ThreadState.active = 0
state_code ThreadState.stale = 1
state_code ThreadState.ended = 2

abbrev state_of : ℕ → ThreadState
state_of zero = ThreadState.active
state_of (suc zero) = ThreadState.stale
state_of (suc (suc n)) = ThreadState.ended

pub state_of-state_code : (s : ThreadState) → state_of (state_code s) ≡ s
state_of-state_code ThreadState.active = refl
state_of-state_code ThreadState.stale = refl
state_of-state_code ThreadState.ended = refl

instance abbrev pub state_is_eq : Comparable ThreadState
state_is_eq = through state_code state_of state_of-state_code

instance abbrev pub section_is_eq : Comparable Section
section_is_eq =
    through {B = Text × (Text × Text)} (λ s. (s.title, (s.header_raw, s.body)))
      (λ (t, (h, b)). record { title = t; header_raw = h; body = b }) (λ s. refl)

abbrev Fields : Type 0
Fields =
    Text
    × (Text
        × (Option Text
            × (Text
                × (ThreadState
                    × (Option ℕ
                        × (Option ℕ
                            × (List Text
                                × (List Text
                                    × (Option Text × (Option Text × Dict Text Text))))))))))

instance abbrev pub meta_is_eq : Comparable ThreadMeta
meta_is_eq =
    through {B = Fields}
      (λ m. (
        m.slug,
        (
          m.channel,
          (
            m.initiative,
            (
              m.title,
              (
                m.state,
                (
                  m.opened_at,
                  (
                    m.last_message_at,
                    (m.participants, (m.message_ids, (m.continues, (m.summary_cursor, m.others)))),
                  ),
                ),
              ),
            ),
          ),
        ),
      ))
      (λ (s, (c, (i, (t, (st, (o, (l, (p, (ids, (cont, (sc, others))))))))))). record {
        slug = s;
        channel = c;
        initiative = i;
        title = t;
        state = st;
        opened_at = o;
        last_message_at = l;
        participants = p;
        message_ids = ids;
        continues = cont;
        summary_cursor = sc;
        others = others;
      })
      (λ m. refl)

instance abbrev pub channel_meta_is_eq : Comparable ChannelMeta
channel_meta_is_eq =
    through {B = Text × (Text × (String × Option Text))}
      (λ m. (m.slug, (m.title, (m.kind, m.initiative))))
      (λ (s, (t, (k, i))). record { slug = s; title = t; kind = k; initiative = i }) (λ m. refl)

abbrev front_code : Front → Option ThreadMeta × Option ChannelMeta
front_code (Front.thread_front m) = (some m, none)
front_code (Front.channel_front m) = (none, some m)
front_code Front.other_front = (none, none)

abbrev front_of : Option ThreadMeta × Option ChannelMeta → Front
front_of (some m, o) = Front.thread_front m
front_of (none, some m) = Front.channel_front m
front_of (none, none) = Front.other_front

pub front_of-front_code : (f : Front) → front_of (front_code f) ≡ f
front_of-front_code (Front.thread_front m) = refl
front_of-front_code (Front.channel_front m) = refl
front_of-front_code Front.other_front = refl

instance abbrev pub front_is_eq : Comparable Front
front_is_eq = through front_code front_of front_of-front_code

instance abbrev pub page_is_eq : Comparable (Page Front)
page_is_eq =
    through {B = String × (Front × (Text × List Section))}
      (λ p. (p.page_type, (p.frontmatter, (p.preamble, p.sections))))
      (λ (t, (f, (p, s))). record { page_type = t; frontmatter = f; preamble = p; sections = s })
      (λ p. refl)

abbrev content_code : Content → Option (Page Front) × Option Text
content_code (Content.page p) = (some p, none)
content_code (Content.broken t) = (none, some t)

abbrev content_from : Option (Page Front) × Option Text → Content
content_from (some p, o) = Content.page p
content_from (none, some t) = Content.broken t
content_from (none, none) = Content.broken []

pub content_from-content_code : (c : Content) → content_from (content_code c) ≡ c
content_from-content_code (Content.page p) = refl
content_from-content_code (Content.broken t) = refl

instance abbrev pub content_is_eq : Comparable Content
content_is_eq = through content_code content_from content_from-content_code
