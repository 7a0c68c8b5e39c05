-- ===== src/Paging/Tests.antt =====
-- Pages of small outputs.
use mathlib.Core.Option
use chatgpt_mcp_clean.Base.{
  true, false, some, List, [], ◌∷◌, ◌++◌, map, Text, codes, lookup, ◌≡◌, refl, arith, text_eq,
  insert,
}
use chatgpt_mcp_clean.Paging.{
  start, Readers, Legacy, Page, read_slice, suppresses, spool_page, page_spool_output,
  page_spool_output_async, page_output,
}
use chatgpt_mcp_clean.Paging.Base64.{marker, digits, looks_like_opaque_base64}
use chatgpt_mcp_clean.Paging.Agreement.{unmarked, page_spool_output-page_output}
use chatgpt_mcp_clean.Paging.Lossless.{read_pages, Rest, read_pages-Rest}

abbrev legacy : Legacy
legacy = record {
  running = false;
  stdout_truncated = true;
  stderr_truncated = false;
  stdout_sha256 = some (codes "ab12");
}

abbrev no_readers : Readers
no_readers = record { cursors = []; suppressed = [] }

abbrev process : Text
process = codes "p"

abbrev caller : Text
caller = codes "c"

marker_text :
    marker 64000 (some (codes "ab"))
    ≡ codes
        "[MCP stdout suppressed: 64000 chars of likely binary/base64 text retained in the process spool; sha256=ab use the native artifact/image/file path instead of transporting binary data as text.]"
      ++ 10 ∷ []
unfolding marker digits
marker_text = refl

two_pages :
    Option.map
      (map (λ (page : Page). page.stdout))
      (read_pages process caller legacy (codes "abcdef") (codes "xy") 4 9 no_readers)
    ≡ some (codes "abcd" ∷ codes "ef" ∷ [])
unfolding read_pages page_spool_output spool_page suppresses read_slice looks_like_opaque_base64
    lookup insert text_eq
two_pages = refl

page_spool_output-page_output_example :
    (page_spool_output process caller legacy (codes "abcdef") (codes "xy") 4 no_readers
      ≡ unmarked
          (page_output process caller legacy (codes "abcdef") (codes "xy") true false 4 no_readers))
    × (page_spool_output_async process caller legacy (codes "abcdef") (codes "xy") 4 true no_readers
        ≡ unmarked (
            page_output process caller legacy
              (codes "abcdef")
              (codes "xy")
              true
              false
              4
              no_readers))
unfolding lookup
page_spool_output-page_output_example =
    page_spool_output-page_output process caller legacy (codes "abcdef") (codes "xy") true false 4
      no_readers (ground arith) refl (ground arith) (ground arith)

read_pages-Rest_example :
    (pages : List Page) × (read_pages process caller legacy
        (codes "abcdef")
        (codes "xy")
        4
        9
        no_readers
      ≡ some pages)
    × Rest process caller legacy (codes "abcdef") (codes "xy") 4 start pages
unfolding lookup
read_pages-Rest_example =
    read_pages-Rest process caller legacy (codes "abcdef") (codes "xy") 4 9 no_readers
      (ground arith, ground arith, refl) (ground arith) (ground arith)
