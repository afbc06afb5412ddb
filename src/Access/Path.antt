-- ===== src/Access/Path.antt =====
-- `normalize_path`: the form of a path by which access is decided.
pub mod Segments
pub mod Laws
use the_watcher.Prelude.{
  ℕ, Bool, true, false, not, ◌&&◌, ◌||◌, Option, none, some, List, [], ◌∷◌, map,
}
use the_watcher.Prelude.{ltb, nat_eq, if◌then◌else◌, has, keep_if, ◌==◌, list_is_eq, nat_is_eq}
use the_watcher.Text.{Text, codes, is_empty, split_on, join_with, lower}

-- A percent sign, a colon, NUL or another control character.
unfoldable pub forbidden : ℕ → Bool
forbidden c = nat_eq c 37 || nat_eq c 58 || ltb c 32 || nat_eq c 127

unfoldable pub to_slash : ℕ → ℕ
to_slash c = if nat_eq c 92 then 47 else c

unfoldable pub ends_in : ℕ → Text → Bool
ends_in d [] = false
ends_in d (c ∷ []) = nat_eq c d
ends_in d (c ∷ b ∷ t) = ends_in d (b ∷ t)

abbrev dots : Text
dots = 46 ∷ 46 ∷ []

unfoldable pub bad_segment : Text → Bool
unfolding ends_in
bad_segment seg = (seg == dots) || ends_in 46 seg || ends_in 32 seg

pub clean_segment : Text → Bool
clean_segment seg = not (seg == 46 ∷ [])

pub segments : Text → List Text
unfolding to_slash split_on
segments path = keep_if (λ seg. not (is_empty seg)) (split_on 47 (map to_slash path))

module _ (fold : ℕ → Text) where
  rejoin : List Text → Text
  unfolding join_with lower
  rejoin [] = []
  rejoin (p ∷ ps) = lower fold (join_with 47 (p ∷ ps))

  -- No result is `InvalidPath`.
  unfoldable pub normalize_path : Text → Option Text
  unfolding forbidden segments bad_segment clean_segment rejoin
  normalize_path path =
      if has forbidden path
      then none
      else if has bad_segment (segments path)
      then none
      else some (rejoin (keep_if clean_segment (segments path)))
