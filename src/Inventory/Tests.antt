-- ===== src/Inventory/Tests.antt =====
-- A directory a with two captures and a capture a-1.pcap beside it, in pages of one artifact.
use mathlib.Core.Option.{none, some}
use cute_pcap_mcp.Base.{ℕ, Bool, true, false, [], ◌∷◌, Option, none, some, ◌≡◌, refl, arith, length}
use cute_pcap_mcp.Base.Text.{Bytes, codes, lt_bytes}
use cute_pcap_mcp.Base.Int.{ℤ, pos}
use cute_pcap_mcp.FilePaths.{FilePath}
use cute_pcap_mcp.Errors.{ok}
use cute_pcap_mcp.Artifact.{Resolved, resolve_artifact}
use mathlib.Core.List.{◌++◌}
use cute_pcap_mcp.Artifact.Tests.{real, absolute, links, stat, config}
use cute_pcap_mcp.FilePaths.{same_path}
use cute_pcap_mcp.Base.Text.{eq_bytes}
use cute_pcap_mcp.Inventory.{is_pcap_name}
use cute_pcap_mcp.Inventory.{
  Cursor, skipped, skip_entry, Answers, bytes, bytes_eof, Listed, entry, budget_reached,
}
use cute_pcap_mcp.Inventory.Laws.{at, skip_entry-sibling, Honest}
use cute_pcap_mcp.Inventory.Walk.{Nodes, file, folder, end_, also, Limits, walk_roots}
use cute_pcap_mcp.Inventory.Walk.Visits.{IsEnd, walk_roots-IsEnd}
use cute_pcap_mcp.Inventory.Page.{Options, Outcome, page, list_artifacts, start}
use cute_pcap_mcp.Inventory.Page.Laws.{Promised, list_artifacts-Promised}

abbrev never : ℕ → Bytes → Bool
never root rel = false

abbrev nowhere : FilePath
nowhere = codes "a" ∷ []

abbrev list_one : ℕ → Bytes → ℤ → Listed × ℤ
list_one root rel budget =
    (entry (record { path = nowhere; size_bytes = pos 1; hash = budget_reached }), budget)

abbrev tree : Nodes
tree =
    also (folder (codes "a") (also (file (codes "x.pcap")) (also (file (codes "y.pcap")) end_)))
      (also (file (codes "a-1.pcap")) end_)

abbrev options : Options
options = record { max_scan_entries = pos 0; hash_budget_bytes = pos 100 }

abbrev paths_of : Outcome → ℕ × Option Cursor
paths_of (page p) = (length p.artifacts, p.next_cursor)
paths_of o = (0, none)

abbrev page_at : Option ℤ → Option Cursor → ℕ × Option Cursor
page_at limit cursor =
    paths_of (list_artifacts never list_one (tree ∷ []) options limit (ok cursor))

code : Unit {0}
unfolding list_artifacts
code = tt

-- The first two pages hold the captures of the directory; a page with room for all holds all three.
first_page : page_at (some (pos 1)) none ≡ (1, some (at 0 (codes "a/x.pcap")))
unfolding code
first_page = refl

second_page :
    page_at (some (pos 1)) (some (at 0 (codes "a/x.pcap"))) ≡ (1, some (at 0 (codes "a/y.pcap")))
unfolding code
second_page = refl

-- The third page is empty: a-1.pcap is not greater than the cursor.
third_page : page_at (some (pos 1)) (some (at 0 (codes "a/y.pcap"))) ≡ (0, none)
unfolding code
third_page = refl

whole_page : page_at none none ≡ (3, none)
unfolding code
whole_page = refl

skip_entry-sibling_example :
    (lt_bytes (codes "a") (codes "a-1.pcap") ≡ true)
    × (skip_entry 0 (codes "a-1.pcap") false (some (at 0 (codes "a/y.pcap"))) ≡ skipped)
skip_entry-sibling_example =
    skip_entry-sibling 0 (codes "a") (codes "1.pcap") (codes "y.pcap") b'-' (omega arith)

abbrev reads : Answers
reads = bytes (codes "ab") (bytes [] (bytes (codes "c") (bytes_eof [])))

reads-Honest : Honest 3 0 reads
reads-Honest = ground arith

abbrev small : Limits
small = record { max_scanned = 3; max_artifacts = 2 }

walk_roots-IsEnd_example :
    IsEnd small none never list_one 0
      (tree ∷ [])
      (start (pos 100))
      (walk_roots small none never list_one 0 (tree ∷ []) (start (pos 100)))
walk_roots-IsEnd_example =
    walk_roots-IsEnd small none never list_one 0 (tree ∷ []) (start (pos 100))
      (omega arith, omega arith, refl, refl)

list_artifacts-Promised_example :
    Promised
      (some (pos 1))
      (ok none)
      (list_artifacts never list_one (tree ∷ []) options (some (pos 1)) (ok none))
list_artifacts-Promised_example =
    list_artifacts-Promised never list_one (tree ∷ []) options (some (pos 1)) (ok none)

-- The capture at /pcaps/a.pcap, of five bytes that are read in one call.
abbrev print : FilePath → Bytes
print [] = []
print (s ∷ p) = codes "/" ++ s ++ print p

abbrev answers : FilePath → Answers
answers p = bytes_eof (codes "hello")

abbrev resolved : Resolved
resolved = record { path = real; info = record { size = pos 5; is_regular = true } }

resolves : resolve_artifact absolute links stat (codes "link") config ≡ ok resolved
unfolding resolve_artifact eq_bytes same_path
resolves = refl

real-named : is_pcap_name (print real) ≡ true
unfolding is_pcap_name
real-named = refl
