-- ===== src/Wiki/Schema.antt =====
-- The sections of each page type and who owns them: shared/wiki/schema.py.
use the_watcher.Prelude.{ℕ, String, Option, none, some, List, [], ◌∷◌, if◌then◌else◌}
use the_watcher.Prelude.{◌==◌, nat_is_eq, list_is_eq, string_is_eq, contains}
use the_watcher.Prelude.Dict.{Dict, lookup, keys}
use the_watcher.Text.{Text, codes, lower}

pub data Owner : Type 0 where
  human shared managed append derived : Owner

abbrev member_sections : Dict Text Owner
member_sections =
    (codes "About", Owner.human)
    ∷ (codes "Projects", Owner.derived)
    ∷ (codes "Past projects", Owner.derived)
    ∷ (codes "Open tasks", Owner.derived)
    ∷ (codes "Notes", Owner.shared)
    ∷ []

abbrev project_sections : Dict Text Owner
project_sections =
    (codes "Brief", Owner.human)
    ∷ (codes "Status", Owner.managed)
    ∷ (codes "Open tasks", Owner.managed)
    ∷ (codes "Decisions", Owner.append)
    ∷ (codes "Log", Owner.append)
    ∷ (codes "Resources", Owner.append)
    ∷ (codes "Threads", Owner.derived)
    ∷ (codes "Notes", Owner.shared)
    ∷ []

abbrev event_sections : Dict Text Owner
event_sections =
    (codes "Brief", Owner.human)
    ∷ (codes "Status", Owner.managed)
    ∷ (codes "Logistics", Owner.managed)
    ∷ (codes "Decisions", Owner.append)
    ∷ (codes "Log", Owner.append)
    ∷ (codes "Resources", Owner.append)
    ∷ (codes "Threads", Owner.derived)
    ∷ (codes "Outcome", Owner.human)
    ∷ (codes "Notes", Owner.shared)
    ∷ []

abbrev channel_sections : Dict Text Owner
channel_sections =
    (codes "Active threads", Owner.derived)
    ∷ (codes "Stale threads", Owner.derived)
    ∷ (codes "Archived threads", Owner.derived)
    ∷ (codes "Notes", Owner.shared)
    ∷ []

abbrev thread_sections : Dict Text Owner
thread_sections =
    (codes "Summary", Owner.managed)
    ∷ (codes "Items", Owner.managed)
    ∷ (codes "Timeline", Owner.append)
    ∷ (codes "Notes", Owner.shared)
    ∷ []

abbrev resource_sections : Dict Text Owner
resource_sections = (codes "Summary", Owner.managed) ∷ (codes "Notes", Owner.human) ∷ []

abbrev idea_sections : Dict Text Owner
idea_sections =
    (codes "Statement", Owner.managed)
    ∷ (codes "Why now", Owner.managed)
    ∷ (codes "Evidence", Owner.managed)
    ∷ (codes "Existing leverage", Owner.managed)
    ∷ (codes "Skill match", Owner.managed)
    ∷ (codes "Risks", Owner.managed)
    ∷ (codes "Notes", Owner.shared)
    ∷ []

abbrev inbox_sections : Dict Text Owner
inbox_sections =
    (codes "Pending", Owner.managed)
    ∷ (codes "Done", Owner.managed)
    ∷ (codes "Notes", Owner.shared)
    ∷ []

abbrev section_owners : Dict String (Dict Text Owner)
section_owners =
    ("member", member_sections)
    ∷ ("project", project_sections)
    ∷ ("event", event_sections)
    ∷ ("channel", channel_sections)
    ∷ ("thread", thread_sections)
    ∷ ("resource", resource_sections)
    ∷ ("idea", idea_sections)
    ∷ ("inbox", inbox_sections)
    ∷ []

or_empty : Option (Dict Text Owner) → Dict Text Owner
or_empty none = []
or_empty (some owners) = owners

-- `SECTION_OWNERS.get(page_type, {})`
unfoldable pub owners_of : String → Dict Text Owner
unfolding or_empty lookup
owners_of page_type = or_empty (lookup page_type section_owners)

abbrev section_aliases : Dict Text Text
section_aliases =
    (codes "tasks", codes "Open tasks")
    ∷ (codes "to do", codes "Open tasks")
    ∷ (codes "todo", codes "Open tasks")
    ∷ []

module _ (fold : ℕ → Text) where
  first_named : Text → List Text → Option Text
  first_named title [] = none
  first_named title (canonical ∷ titles) =
      let rest = first_named title titles in
      if lower fold canonical == lower fold title then some canonical else rest

  alias_of : Option Text → Text → List Text → Text
  alias_of none title titles = title
  alias_of (some target) title titles = if contains titles target then target else title

  or_alias : Option Text → Text → List Text → Text
  or_alias (some canonical) title titles = canonical
  or_alias none title titles = alias_of (lookup (lower fold title) section_aliases) title titles

  unfoldable pub canonical_section_title : String → Text → Text
  unfolding first_named alias_of or_alias
  canonical_section_title page_type title =
      let titles = keys (owners_of page_type) in or_alias (first_named title titles) title titles

  unfoldable pub owner_of : String → Text → Option Owner
  owner_of page_type title = lookup (canonical_section_title page_type title) (owners_of page_type)
