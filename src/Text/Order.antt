-- ===== src/Text/Order.antt =====
-- Sorting by Python's order of texts, which is that of their code points.
use the_watcher.Prelude.{contains, ◌==◌, nat_is_eq, list_is_eq, arith, ◌≡◌, refl, ap, ◌∙◌}
use the_watcher.Prelude.{Bool, true, false, ◌&&◌, ◌||◌, List, [], ◌∷◌, ltb, nat_eq, if◌then◌else◌}
use the_watcher.Text.{Text}

-- `s <= t`
pub le_text : Text → Text → Bool
le_text [] t = true
le_text (c ∷ s) [] = false
le_text (c ∷ s) (d ∷ t) = ltb c d || nat_eq c d && le_text s t

module _ {A : Type 0} (le : A → A → Bool) where
  unfoldable pub insert_by : A → List A → List A
  insert_by a [] = a ∷ []
  insert_by a (b ∷ bs) = let rest = insert_by a bs in if le a b then a ∷ b ∷ bs else b ∷ rest

  -- `sorted`, which keeps the order of equals.
  unfoldable pub sort_by : List A → List A
  sort_by [] = []
  sort_by (a ∷ as_list) = insert_by a (sort_by as_list)

pub sort_texts : List Text → List Text
sort_texts texts = sort_by le_text texts

contains-insert_by :
    (a : Text) (texts : List Text) (t : Text)
    → contains (insert_by le_text a texts) t ≡ (a == t || contains texts t)
unfolding insert_by
contains-insert_by a [] t = refl
contains-insert_by a (b ∷ texts) t = ground (arith, contains-insert_by a texts t)

pub contains-sort_texts :
    (texts : List Text) (t : Text) → contains (sort_texts texts) t ≡ contains texts t
unfolding sort_texts sort_by
contains-sort_texts [] t = refl
contains-sort_texts (a ∷ texts) t =
    contains-insert_by a (sort_by le_text texts) t
    ∙ ap (λ b. a == t || b) (contains-sort_texts texts t)
