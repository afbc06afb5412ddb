-- ===== src/Gateway/Commands.antt =====
-- Whom a message mentions: `mentioned_jid` of shared/gateway/commands.py.
use the_watcher.Prelude.{
  ℕ, not, Option, none, some, List, [], ◌∷◌, map, if◌then◌else◌, ◌==◌, nat_is_eq, list_is_eq,
  nat_eq, keep_if,
}
use the_watcher.Text.{Text, is_space, strip_if, lstrip_if, is_empty, lower}

-- `raw.split("@", 1)[0]`
before_at : Text → Text
before_at [] = []
before_at (c ∷ t) = let rest = before_at t in if nat_eq c 64 then [] else c ∷ rest

module _ (fold : ℕ → Text) where
  local_part : Text → Text
  local_part raw = lower fold (before_at raw)

  first_with : Text → List Text → Option Text
  first_with key [] = none
  first_with key (raw ∷ rest) =
      let later = first_with key rest in if local_part raw == key then some raw else later

  only_one : List Text → Option Text
  only_one [] = none
  only_one (raw ∷ []) = some raw
  only_one (raw ∷ next ∷ rest) = none

  or_only : Option Text → List Text → Option Text
  or_only (some raw) cleaned = some raw
  or_only none cleaned = only_one cleaned

  pub mentioned_jid : Text → List Text → Option Text
  mentioned_jid token mentions =
      let cleaned = keep_if (λ raw. not (is_empty raw)) (map (strip_if is_space) mentions) in
      let key = local_part (lstrip_if (λ c. nat_eq c 64) (strip_if is_space token)) in
      or_only (if is_empty key then none else first_with key cleaned) cleaned
