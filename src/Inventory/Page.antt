-- ===== src/Inventory/Page.antt =====
-- A page of the inventory: `listPCAPArtifactsWithOptions`, with the decoded cursor as an argument.
pub mod Laws
use cute_pcap_mcp.Base.{ℕ, Bool, false, List, [], Option, none, if◌then◌else◌}
use cute_pcap_mcp.Base.Text.{Bytes}
use cute_pcap_mcp.Base.Int.{ℤ, pos, pos_part, lt_ℤ, le_ℤ, sub64}
use cute_pcap_mcp.Errors.{Err, Result, ok, failed}
use cute_pcap_mcp.Inventory.{Cursor, Entry, Listed, normalize_limit}
use cute_pcap_mcp.Inventory.Walk.{
  Nodes, State, Reply, go_on, skip_dir, stop, aborted, Limits, walk_roots, ScanStatus,
  scan_complete,
}

pub record Options : Type 0 where
  pub max_scan_entries : ℤ
  pub hash_budget_bytes : ℤ

pub record Page : Type 0 where
  pub artifacts : List Entry
  pub limit : ℤ
  pub truncated : Bool
  pub status : ScanStatus
  pub scan_budget_entries : ℤ
  pub hash_budget_bytes : ℤ
  pub next_cursor : Option Cursor
  pub hash_bytes_used : ℤ
  pub skips : List Bytes

pub data Outcome : Type 0 where
  page : Page → Outcome
  refused : Err → Outcome
  context_ended : Outcome

unfoldable pub with_defaults : Options → Options
with_defaults o = record {
  max_scan_entries = if le_ℤ o.max_scan_entries (pos 0) then pos 500 else o.max_scan_entries;
  hash_budget_bytes =
      if lt_ℤ o.hash_budget_bytes (pos 0) then pos 33554432 else o.hash_budget_bytes;
}

abbrev pub start : ℤ → State
start budget = record {
  artifacts = [];
  scanned = 0;
  last = none;
  truncated = false;
  status = scan_complete;
  budget = budget;
  skips = [];
}

abbrev page_of : Options → ℤ → State → Page
page_of o limit s = record {
  artifacts = s.artifacts;
  limit = limit;
  status = s.status;
  scan_budget_entries = o.max_scan_entries;
  hash_budget_bytes = o.hash_budget_bytes;
  truncated = s.truncated;
  next_cursor = if s.truncated then s.last else none;
  hash_bytes_used = sub64 o.hash_budget_bytes s.budget;
  skips = s.skips;
}

abbrev outcome_of : Options → ℤ → Reply → Outcome
outcome_of o limit (go_on s) = page (page_of o limit s)
outcome_of o limit (skip_dir s) = page (page_of o limit s)
outcome_of o limit (stop s) = page (page_of o limit s)
outcome_of o limit (aborted s) = context_ended

abbrev limits : Options → ℤ → Limits
limits o limit = record {
  max_scanned = pos_part o.max_scan_entries;
  max_artifacts = pos_part limit;
}

module _ (ends : ℕ → Bytes → Bool) (list_file : ℕ → Bytes → ℤ → Listed × ℤ)
    (trees : List Nodes) where
  abbrev walk_page : Options → ℤ → Option Cursor → Outcome
  walk_page o limit cursor =
      outcome_of o limit
        (walk_roots (limits o limit) cursor ends list_file 0 trees (start o.hash_budget_bytes))

  abbrev with_cursor : Options → ℤ → Result (Option Cursor) → Outcome
  with_cursor o limit (failed e) = refused e
  with_cursor o limit (ok cursor) = walk_page o limit cursor

  abbrev with_limit : Options → Result ℤ → Result (Option Cursor) → Outcome
  with_limit o (failed e) cursor = refused e
  with_limit o (ok limit) cursor = with_cursor o limit cursor

  unfoldable pub list_artifacts : Options → Option ℤ → Result (Option Cursor) → Outcome
  unfolding with_defaults normalize_limit walk_roots
  list_artifacts opts limit cursor = with_limit (with_defaults opts) (normalize_limit limit) cursor
