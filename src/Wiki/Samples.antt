-- ===== src/Wiki/Samples.antt =====
-- The wiki's theorems at one thread page, with a fence that a person has written around.
use the_watcher.Prelude.{
  ℕ, String, ◌≡◌, ◌⊎◌, refl, Bool, Option, none, some, [], ◌∷◌, ◌++◌, ltb, All,
}
use the_watcher.Text.{Text, codes, split_on, lower}
use the_watcher.Text.Samples.{same}
use the_watcher.Wiki.Neutralise.{neutralise, Inert}
use the_watcher.Wiki.Neutralise.Laws.{neutralise-Inert, neutralise_idempotent}
use the_watcher.Wiki.Schema.{Owner, owner_of, owners_of, canonical_section_title}
use the_watcher.Wiki.Page.{Section, Page, section, section_named, goes_by}
use the_watcher.Prelude.Dict.{lookup}
use the_watcher.Text.Search.{starts_with, after_char}
use the_watcher.Wiki.Parser.{
  Parsed, parse_page, parse_match, with_yaml, with_type, with_front, frontmatter_match, opened,
  closed, after_open, find_close, after_mark, after_newline, gather, kept_lines, to_first, add_line,
  header_title,
}
use the_watcher.Wiki.Parser.Laws.{DumpsTo, dump_page-parse_page}
use the_watcher.Wiki.Editor.{set_fenced, rewrite_as, allowed}
use the_watcher.Wiki.Editor.Laws.{KeptBy, set_fenced-KeptBy}

abbrev injected : Text
injected = codes "## Notes" ++ 10 ∷ codes "<!-- /watcher -->"

neutralise-Inert_example : All Inert (split_on 10 (neutralise injected))
neutralise-Inert_example = neutralise-Inert injected

neutralise_idempotent_example : neutralise (neutralise injected) ≡ neutralise injected
neutralise_idempotent_example = neutralise_idempotent injected

abbrev is_letter : ℕ → Bool
is_letter c = ltb 96 c

abbrev summary : Section
summary = record {
  title = codes "Summary";
  header_raw = codes "## Summary" ++ 10 ∷ [];
  body = codes "mine" ++ 10 ∷ codes "<!-- watcher:managed -->old<!-- /watcher -->" ++ 10 ∷ [];
}

abbrev thread_page : Page (Unit {0})
thread_page = record {
  page_type = "thread";
  frontmatter = tt;
  preamble = codes "# T";
  sections = summary ∷ [];
}

abbrev or_page : Option (Page (Unit {0})) → Page (Unit {0})
or_page none = thread_page
or_page (some page) = page

abbrev rewritten_page : Page (Unit {0})
rewritten_page = or_page (set_fenced same is_letter thread_page (codes "summary") (codes "new"))

sample_rewrite :
    set_fenced same is_letter thread_page (codes "summary") (codes "new") ≡ some rewritten_page
unfolding set_fenced rewrite_as allowed owner_of canonical_section_title owners_of lookup lower
sample_rewrite = refl

sample_section : section same thread_page (codes "summary") ≡ some summary
unfolding section section_named goes_by canonical_section_title owners_of lookup lower
sample_section = refl

set_fenced-KeptBy_example :
    (owner : Owner) × (owner_of same "thread" (codes "summary") ≡ some owner)
    × ((owner ≡ Owner.managed) ⊎ (owner ≡ Owner.derived))
    × KeptBy is_letter thread_page rewritten_page summary (codes "new") owner
set_fenced-KeptBy_example =
    set_fenced-KeptBy same is_letter thread_page rewritten_page (codes "summary") (codes "new")
      summary sample_section sample_rewrite

abbrev page_text : Text
page_text = codes "---\r\ntype: thread\n---\n# Logo\n## Summary\nBlue.\n"

abbrev loaded : Text → Option Text
loaded raw = some raw

abbrev any_type : Text → Option String
any_type raw = some "thread"

abbrev unchecked : String → Text → Option (Unit {0})
unchecked page_type raw = some tt

abbrev page_read : Parsed (Unit {0})
page_read = record {
  page = record {
    page_type = "thread";
    frontmatter = tt;
    preamble = codes "# Logo\n";
    sections =
        record {
          title = codes "Summary";
          header_raw = codes "## Summary\n";
          body = codes "Blue.\n";
        }
        ∷ [];
  };
  frontmatter_raw = codes "type: thread\n";
}

dump_page-parse_page_example : DumpsTo loaded any_type unchecked page_text page_read
unfolding parse_page parse_match with_yaml with_type with_front frontmatter_match opened closed
    after_open find_close after_mark after_newline gather kept_lines to_first add_line header_title
    starts_with after_char
dump_page-parse_page_example =
    dump_page-parse_page loaded any_type unchecked page_text page_read refl
