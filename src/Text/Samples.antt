-- ===== src/Text/Samples.antt =====
-- Slugs of concrete titles, over a table of lower case that changes nothing above ASCII.
use the_watcher.Prelude.{ℕ, ◌≡◌, refl, inr, [], ◌∷◌, arith}
use the_watcher.Text.{Text, codes, IsTable}
use the_watcher.Text.Slug.{slugify, IsSlug, slugify-IsSlug, slugify-slug, slug_from}

abbrev pub same : ℕ → Text
same c = c ∷ []

pub same-IsTable : IsTable same
same-IsTable = record { some_char = λ c high e. cc; settled = λ c high. (inr (high, refl), tt) }

slug_of_title : slugify same (codes "  Robot Arm -- v2! ") ≡ codes "robot-arm-v2"
unfolding slugify
slug_of_title = refl

slug_of_nothing : slugify same (codes "--") ≡ codes "untitled"
unfolding slugify
slug_of_nothing = refl

slugify-IsSlug_example : IsSlug (slugify same (codes "  Robot Arm -- v2! "))
slugify-IsSlug_example = slugify-IsSlug same (codes "  Robot Arm -- v2! ")

robot-IsSlug : IsSlug (codes "robot-arm-v2")
unfolding slug_from
robot-IsSlug = record { shape = refl; short = omega arith }

slugify-slug_example : slugify same (codes "robot-arm-v2") ≡ codes "robot-arm-v2"
slugify-slug_example = slugify-slug same (codes "robot-arm-v2") robot-IsSlug
