-- ===== src/Access/Samples.antt =====
-- The access policy at a concrete vault: one channel of coordinators, one of a project.
use the_watcher.Prelude.{ℕ, ◌+◌, ◌≡◌, ◌≢◌, refl, ◌⊎◌, ◌↔◌, true, false, ◌&&◌}
use the_watcher.Prelude.{Option, none, some, List, [], ◌∷◌, arith, if◌then◌else◌, has, All, keep_if}
use the_watcher.Prelude.{◌==◌, list_is_eq, nat_is_eq}
use the_watcher.Prelude.Dict
use the_watcher.Text.{Text, codes, is_empty, split_on}
use the_watcher.Text.Slug.{slugify}
use the_watcher.Text.Samples.{same, same-IsTable}
use the_watcher.Access.Path.{normalize_path}
use the_watcher.Access.Path.Laws.{normalize_path_idempotent, normalize_path-IsSafe, IsSafe}
use the_watcher.Access.Membership.{clean, Cache, members, IsBounded, members-IsBounded}
use the_watcher.Access.Resolver.{
  Channel, found, outside, invalid_path, resolve, resolve_slug, resolve_parts, slug_part, drop_md,
  matching_jids, matches, is_whatsapp, channel_dir, title_or_jid, add_to_set, pick, coordis_jid,
}
use the_watcher.Access.Resolver.Laws.{names, resolve_slug_found}
use the_watcher.Access.Policy.{
  Principal, overlap, in_inbox, is_member, coordis_grants, channel_grants, area_grants,
  after_coordis, decide, can_read,
}
use the_watcher.Access.Policy.Laws.{Reason, can_read_exact, resolve_agrees}

abbrev coordis : Channel
coordis = record { jid = codes "1@g.us"; title = some (codes "Coordis"); kind = "coordis" }

abbrev arm : Channel
arm = record { jid = codes "2@g.us"; title = some (codes "Robot Arm"); kind = "project" }

abbrev vault_channels : Unit {0} → Option (List Channel)
vault_channels s = some (coordis ∷ arm ∷ [])

-- Ann coordinates; Bob is in the project's channel.
abbrev roster : Text → Unit {0} → Option (List Text) × Unit {0}
roster jid s = (some (if jid == codes "1@g.us" then codes "ann" ∷ [] else codes " bob " ∷ []), s)

abbrev no_roster : Text → Unit {0} → Option (List Text) × Unit {0}
no_roster jid s = (none, s)

abbrev bob : Principal
bob = record { identities = codes "bob" ∷ []; is_admin = false; is_privileged = false }

abbrev page : Text
page = codes "//Channels\\Robot-Arm/20260101-start.md"

abbrev page_norm : Text
page_norm = codes "channels/robot-arm/20260101-start.md"

page_normalised : normalize_path same page ≡ some page_norm
unfolding normalize_path keep_if
page_normalised = refl

dots_refused : normalize_path same (codes "people/../inbox") ≡ none
unfolding normalize_path keep_if
dots_refused = refl

normalize_path_idempotent_example : normalize_path same page_norm ≡ some page_norm
normalize_path_idempotent_example =
    normalize_path_idempotent same same-IsTable page page_norm page_normalised

normalize_path-IsSafe_example : (page_norm ≡ []) ⊎ All IsSafe (split_on 47 page_norm)
normalize_path-IsSafe_example =
    normalize_path-IsSafe same same-IsTable page page_norm page_normalised

bob_reads : (can_read same vault_channels roster bob page tt).0 ≡ true
unfolding can_read decide after_coordis coordis_grants area_grants channel_grants is_member overlap
    in_inbox clean resolve resolve_parts resolve_slug slug_part drop_md matching_jids matches
    is_whatsapp channel_dir title_or_jid slugify add_to_set pick coordis_jid normalize_path keep_if
bob_reads = refl

can_read_exact_example : ((can_read same vault_channels roster bob page tt).0 ≡ true) ↔ (
    (norm : Text) × (normalize_path same page ≡ some norm)
    × (is_empty norm ≡ false)
    × Reason same vault_channels roster bob norm tt)
can_read_exact_example = can_read_exact same vault_channels roster bob page tt

abbrev notice : Text
notice = codes "inbox/project_agent.md"

bob_reads_ideas : (can_read same vault_channels no_roster bob (codes "ideas/a.md") tt).0 ≡ true
unfolding can_read decide after_coordis coordis_grants area_grants is_member in_inbox normalize_path
    keep_if coordis_jid is_whatsapp
bob_reads_ideas = refl

resolve_agrees_example :
    (resolve same vault_channels page_norm tt ≢ invalid_path)
    × (resolve same vault_channels page_norm tt ≢ outside)
unfolding split_on
resolve_agrees_example =
    resolve_agrees same vault_channels roster same-IsTable page page_norm tt page_normalised refl

arm_resolves : resolve_slug same (codes "robot-arm") (vault_channels tt) ≡ found (codes "2@g.us")
unfolding resolve_slug matching_jids matches is_whatsapp channel_dir title_or_jid slugify add_to_set
    pick
arm_resolves = refl

resolve_slug_found_example :
    (has (λ ch. names same (codes "robot-arm") ch && ch.jid == codes "2@g.us") (coordis ∷ arm ∷ [])
      ≡ true)
    × All
        (λ ch. names same (codes "robot-arm") ch ≡ true → codes "2@g.us" ≡ ch.jid)
        (coordis ∷ arm ∷ [])
resolve_slug_found_example =
    resolve_slug_found same (codes "robot-arm") (coordis ∷ arm ∷ []) (codes "2@g.us") arm_resolves

-- The cache in front of a provider whose world is its clock.
abbrev clock : ℕ → ℕ
clock now = now

abbrev provider : Text → ℕ → Option (List Text) × ℕ
provider channel now = (some (codes " bob " ∷ []), now + 5)

abbrev warm : Cache
warm = (codes "2@g.us", record { expires_at = 70; cached = codes "bob" ∷ [] }) ∷ []

no_answers-IsBounded : IsBounded clock 60 provider 0 []
unfolding Dict.lookup
no_answers-IsBounded = record { within = λ channel entry e. cc }

members-IsBounded_example :
    IsBounded clock 60 provider 69 (members clock 60 provider (codes "2@g.us") ([], 69)).1.0
members-IsBounded_example =
    members-IsBounded clock 60 provider (codes "2@g.us") [] 69 0 (omega arith) no_answers-IsBounded
