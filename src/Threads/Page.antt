-- ===== src/Threads/Page.antt =====
-- Thread and channel pages: their frontmatter, the templates of shared/wiki/templates.py, the paths
-- of shared/wiki/layout.py and the timeline's ids of shared/wiki/timeline.py.
use the_watcher.Prelude.{
  ℕ, String, Bool, true, false, not, Option, none, some, List, [], ◌∷◌, ◌++◌, map, if◌then◌else◌,
}
use the_watcher.Prelude.{nat_is_eq, list_is_eq, string_is_eq, nat_eq, contains, keep_if, drop}
use the_watcher.Prelude.Dict.{Dict, lookup}
use the_watcher.Text.{Text, codes, is_space, is_empty, strip_if, lstrip_if, split_on, join_with}
use the_watcher.Text.Search.{starts_with, cut_at}
use the_watcher.Access.Resolver.{Channel, channel_dir, title_or_jid}
use the_watcher.Wiki.Neutralise.{neutralise}
use the_watcher.Wiki.Schema.{Owner, owners_of}
use the_watcher.Prelude.{◌+◌, ◌/◌, ◌%◌, ltb}
use the_watcher.Wiki.Parser.{Parsed, parse_page, full_texts}
use the_watcher.Wiki.Page.{Section, Page, skeleton_body, strip_newlines}

-- The state of a thread, as the schema allows it.
pub data ThreadState : Type 0 where
  active stale ended : ThreadState

-- `others` are the keys that the store does not read, with their values as texts.
pub record ThreadMeta : Type 0 where
  pub slug : Text
  pub channel : Text
  pub initiative : Option Text
  pub title : Text
  pub state : ThreadState
  pub opened_at : Option ℕ
  pub last_message_at : Option ℕ
  pub participants : List Text
  pub message_ids : List Text
  pub continues : Option Text
  pub summary_cursor : Option Text
  pub others : Dict Text Text

pub record ChannelMeta : Type 0 where
  pub slug : Text
  pub title : Text
  pub kind : String
  pub initiative : Option Text

pub data Front : Type 0 where
  thread_front : ThreadMeta → Front
  channel_front : ChannelMeta → Front
  other_front : Front

-- What a file of the vault holds, once it is read: a page, or a text that is none.
pub data Content : Type 0 where
  page : Page Front → Content
  broken : Text → Content

-- The libraries below `parse_page`: YAML, and pydantic's check against the schema of a type.
pub record Reader : Type 1 where
  pub Value : Type 0
  pub load : Text → Option Value
  pub type_of : Value → Option String
  pub validate : String → Value → Option Front

unfoldable pub content_of_parsed : Text → Option (Parsed Front) → Content
content_of_parsed text none = Content.broken text
content_of_parsed text (some parsed) = Content.page parsed.page

-- What a text is read as.
unfoldable pub read_as : Reader → Text → Content
read_as reader text =
    content_of_parsed text (parse_page reader.load reader.type_of reader.validate text)

module _ (fold : ℕ → Text) where
  unfoldable pub channel_page_path : Channel → Text
  channel_page_path ch = codes "channels/" ++ channel_dir fold ch ++ codes ".md"

  unfoldable pub thread_dir : Channel → Text
  thread_dir ch = codes "channels/" ++ channel_dir fold ch

  unfoldable pub archive_dir : Channel → Text
  archive_dir ch = codes "channels/archive/" ++ channel_dir fold ch

-- `splitlines`, for the line ends that Python knows: a carriage return goes with its newline.
is_line_end : ℕ → Bool
is_line_end c = contains (10 ∷ 11 ∷ 12 ∷ 13 ∷ 28 ∷ 29 ∷ 30 ∷ 133 ∷ 8232 ∷ 8233 ∷ []) c

add_to_line : ℕ → List Text → List Text
add_to_line c [] = (c ∷ []) ∷ []
add_to_line c (l ∷ ls) = (c ∷ l) ∷ ls

after_return : Text → List Text → List Text
after_return t lines = if starts_with (10 ∷ []) t then lines else [] ∷ lines

pub splitlines : Text → List Text
splitlines [] = []
splitlines (c ∷ t) =
    let lines = splitlines t in
    if nat_eq c 13
    then after_return t lines
    else if is_line_end c
    then [] ∷ lines
    else add_to_line c lines

-- `timeline_lines`
pub timeline_lines : Text → List Text
timeline_lines body = keep_if (starts_with (codes "- ")) (map (strip_if is_space) (splitlines body))

-- The text before the first closing bracket.
up_to_bracket : Option (Text × Text) → List Text
up_to_bracket none = []
up_to_bracket (some (ids, rest)) =
    keep_if (λ t. not (is_empty t)) (map (strip_if is_space) (split_on 44 ids))

ids_after : Option (Text × Text) → List Text
ids_after none = []
ids_after (some (before, rest)) =
    up_to_bracket (cut_at (codes "]") (lstrip_if is_space (drop 6 rest)))

-- `timeline_src_ids`
pub timeline_src_ids : Text → List Text
timeline_src_ids line = ids_after (cut_at (codes "[src::") line)

-- `list(dict.fromkeys(...))`: each item once, where it stands first.
unfoldable pub unique_from : List Text → List Text → List Text
unique_from seen [] = []
unique_from seen (x ∷ xs) =
    let old = unique_from seen xs in
    let new = unique_from (x ∷ seen) xs in if contains seen x then old else x ∷ new

unfoldable pub unique : List Text → List Text
unique xs = unique_from [] xs

or_no_text : Option Text → Text
or_no_text none = []
or_no_text (some t) = t

section_of : Text → Owner → Text → Bool → Section
section_of title owner content last = record {
  title = title;
  header_raw = codes "## " ++ title ++ 10 ∷ [];
  body = skeleton_body owner (neutralise (strip_newlines content)) last;
}

sections_from : Dict Text Owner → Dict Text Text → List Section
sections_from [] content = []
sections_from ((title, owner) ∷ []) content =
    section_of title owner (or_no_text (lookup title content)) true ∷ []
sections_from ((title, owner) ∷ next ∷ owners) content =
    section_of title owner (or_no_text (lookup title content)) false
    ∷ sections_from (next ∷ owners) content

-- `new_page_sections`, of contents whose titles the schema has.
pub new_page_sections : String → Dict Text Text → List Section
new_page_sections page_type content = sections_from (owners_of page_type) content

pub record ThreadDraft : Type 0 where
  pub title : Text
  pub summary : Text
  pub items_body : Text
  pub timeline : List Text
  pub participants : List Text
  pub message_ids : List Text
  pub opened_at : ℕ
  pub last_message_at : ℕ

abbrev given_text : Option Text → Option Text
given_text none = none
given_text (some []) = none
given_text (some (c ∷ t)) = some (c ∷ t)

hex_digit : ℕ → ℕ
hex_digit n = if ltb n 10 then 48 + n else 87 + n

-- A character of a JSON string: a short escape, a number of four digits, or itself.
escape_char : ℕ → Text
escape_char c =
    if nat_eq c 34
    then codes "\\\""
    else if nat_eq c 92
    then codes "\\\\"
    else if nat_eq c 10
    then codes "\\n"
    else if nat_eq c 13
    then codes "\\r"
    else if nat_eq c 9
    then codes "\\t"
    else if nat_eq c 8
    then codes "\\b"
    else if nat_eq c 12
    then codes "\\f"
    else if ltb c 32
    then codes "\\u00" ++ hex_digit (c / 16) ∷ hex_digit (c % 16) ∷ []
    else c ∷ []

escape : Text → Text
escape [] = []
escape (c ∷ t) = escape_char c ++ escape t

-- `yaml_str`: a JSON string, with characters above ASCII as they are.
pub yaml_str : Text → Text
yaml_str t = 34 ∷ (escape t ++ 34 ∷ [])

-- `", ".join(...)`
listed : List Text → Text
listed [] = []
listed (t ∷ []) = yaml_str t
listed (t ∷ u ∷ texts) = yaml_str t ++ codes ", " ++ listed (u ∷ texts)

last_quoted : List Text → Text
last_quoted [] = []
last_quoted (t ∷ []) = yaml_str t
last_quoted (t ∷ u ∷ texts) = last_quoted (u ∷ texts)

initiative_line : Option Text → Text
initiative_line none = []
initiative_line (some t) = codes "initiative: \"[[" ++ t ++ codes "]]\"\n"

-- `render_new_thread_page`; `stamp` is `isoformat`.
pub render_new_thread_page : (ℕ → Text) → Channel → Option Text → Text → ThreadDraft → Text
render_new_thread_page stamp ch initiative slug draft =
    codes "---\ntype: thread\nslug: "
    ++ slug
    ++ codes "\nchannel: \"[["
    ++ title_or_jid ch.title ch.jid
    ++ codes "]]\"\n"
    ++ initiative_line (given_text initiative)
    ++ codes "title: "
    ++ yaml_str draft.title
    ++ codes "\nstate: active\nopened_at: "
    ++ stamp draft.opened_at
    ++ codes "\nlast_message_at: "
    ++ stamp draft.last_message_at
    ++ codes "\nparticipants: ["
    ++ listed draft.participants
    ++ codes "]\nmessage_ids: ["
    ++ listed draft.message_ids
    ++ codes "]\nsummary_cursor: "
    ++ last_quoted draft.message_ids
    ++ codes "\n---\n# "
    ++ draft.title
    ++ codes "\n"
    ++ full_texts (
        new_page_sections "thread" (
          (codes "Summary", draft.summary)
          ∷ (codes "Items", draft.items_body)
          ∷ (codes "Timeline", join_with 10 draft.timeline)
          ∷ []))

-- `render_new_channel_page` at a time `now`.
pub render_new_channel_page : (ℕ → Text) → ℕ → Text → String → Text → Option Text → Text
render_new_channel_page stamp now title kind slug initiative =
    codes "---\ntype: channel\nslug: "
    ++ slug
    ++ codes "\ntitle: "
    ++ yaml_str title
    ++ codes "\nkind: "
    ++ codes kind
    ++ codes "\n"
    ++ initiative_line (given_text initiative)
    ++ codes "cursor:\nlast_batch: "
    ++ stamp now
    ++ codes "\n---\n# "
    ++ title
    ++ codes "\n"
    ++ full_texts (new_page_sections "channel" [])
