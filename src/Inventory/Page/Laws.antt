-- ===== src/Inventory/Page/Laws.antt =====
-- What a page of the inventory promises.
use mathlib.Core.Option.{none, some}
use cute_pcap_mcp.Base.{
  ℕ, ◌<◌, ◌≤◌, Bool, true, false, ◌||◌, List, Option, none, some, ◌≡◌, refl, sym, ◌↔◌, ◌⊎◌, inl,
  inr, arith, Bool-cases, length,
}
use cute_pcap_mcp.Base.Text.{Bytes}
use cute_pcap_mcp.Base.Int.{ℤ, pos, negsuc, pos_part, lt_ℤ, le_ℤ}
use cute_pcap_mcp.Errors.{Result, ok, failed}
use cute_pcap_mcp.Errors.Laws.{ok_eq}
use cute_pcap_mcp.Inventory.{Cursor, Listed, normalize_limit, max_limit}
use cute_pcap_mcp.Inventory.Walk.{
  Nodes, State, Reply, go_on, skip_dir, stop, aborted, walk_roots, scan_complete,
  page_limit_reached,
}
use cute_pcap_mcp.Inventory.Walk.Laws.{Running, Full, Within}
use cute_pcap_mcp.Inventory.Walk.Pages.{walk_roots-Within}
use cute_pcap_mcp.Inventory.Page.{
  Options, Page, Outcome, page, refused, context_ended, with_defaults, start, page_of, outcome_of,
  limits, list_artifacts, with_limit, with_cursor,
}

abbrev pub is_some {ℓ} : {A : Type ℓ} → Option A → Bool
is_some none = false
is_some (some x) = true

pub record IsPage (p : Page) : Type 0 where
  pub limit : (1 ≤ pos_part p.limit) × (pos_part p.limit ≤ 10)
  pub artifacts : length p.artifacts ≤ pos_part p.limit
  -- There is a next page exactly when this one is truncated.
  pub cursor : is_some p.next_cursor ≡ p.truncated
  pub complete : (p.truncated ≡ false) ↔ (p.status ≡ scan_complete)
  pub full : p.status ≡ page_limit_reached → length p.artifacts ≡ pos_part p.limit

abbrev pub Promised : Option ℤ → Result (Option Cursor) → Outcome → Type 0
Promised limit cursor (page p) = IsPage p
Promised limit cursor (refused e) = (normalize_limit limit ≡ failed e) ⊎ (cursor ≡ failed e)
Promised limit cursor context_ended = Unit

abbrev InRange : ℤ → Type 0
InRange n = (1 ≤ pos_part n) × (pos_part n ≤ 10)

in_range : (m : ℤ) → (lt_ℤ m (pos 1) || lt_ℤ max_limit m) ≡ false → InRange m
in_range (pos m) p = ground (arith, p)
in_range (negsuc m) p = ground (arith, p)

normalize_limit-InRange : (limit : Option ℤ) (n : ℤ) → normalize_limit limit ≡ ok n → InRange n
unfolding normalize_limit
normalize_limit-InRange none n e = rw (sym (ok_eq e)) (omega arith, omega arith)
normalize_limit-InRange (some m) n e = elim (Bool-cases (lt_ℤ m (pos 1) || lt_ℤ max_limit m)) [
  | inl p ↦ cc (rw p at e)
  | inr p ↦ let same : m ≡ n = ok_eq (rw p at e) in rw (sym same) (in_range m p)
]

with_defaults-positive : (o : Options) → 0 < pos_part (with_defaults o).max_scan_entries
unfolding with_defaults
with_defaults-positive o = elim (Bool-cases (le_ℤ o.max_scan_entries (pos 0))) [
  | inl p ↦ rw p (omega arith)
  | inr p ↦ rw p (ground (arith, p))
]

Running-IsPage :
    (o : Options) (n : ℤ) (s : State) → InRange n → Running (limits o n) s → IsPage (page_of o n s)
Running-IsPage o n s r h = record {
  limit = r;
  artifacts = omega (arith, h.1);
  cursor = rw (h.2) refl;
  complete = (λ e. h.3, λ e. h.2);
  full = λ e. cc h.3;
}

Full-IsPage :
    (o : Options) (n : ℤ) (s : State) → InRange n → Full (limits o n) s → IsPage (page_of o n s)
Full-IsPage o n s r h = record {
  limit = r;
  artifacts = h.1;
  cursor = rw h.2 h.3;
  complete = (λ e. cc, λ e. elim h.4 [ inl q ↦ cc | inr q ↦ cc ]);
  full = λ e. elim h.4 [ inl q ↦ cc | inr q ↦ q.1 ];
}

module _ (o : Options) (n : ℤ) (limit : Option ℤ) (cursor : Result (Option Cursor)) where
  outcome_of-Promised :
      (r : Reply) → InRange n → Within (limits o n) r → Promised limit cursor (outcome_of o n r)
  outcome_of-Promised (go_on s) b h = Running-IsPage o n s b h
  outcome_of-Promised (skip_dir s) b h = Running-IsPage o n s b h
  outcome_of-Promised (stop s) b h = Full-IsPage o n s b h
  outcome_of-Promised (aborted s) b h = tt

module _ (ends : ℕ → Bytes → Bool) (list_file : ℕ → Bytes → ℤ → Listed × ℤ) (trees : List Nodes)
    (opts : Options) where
  with_cursor-Promised :
      (limit : Option ℤ) (n : ℤ) (cursor : Result (Option Cursor))
      → InRange n
      → Promised limit cursor (with_cursor ends list_file trees (with_defaults opts) n cursor)
  unfolding walk_roots
  with_cursor-Promised limit n (failed e) b = inr refl
  with_cursor-Promised limit n (ok cursor) b =
      let o = with_defaults opts in
      let first : Running (limits o n) (start o.hash_budget_bytes) =
        (with_defaults-positive opts, omega (arith, b.0), refl, refl) in
      outcome_of-Promised o n limit (ok cursor) _ b (
        walk_roots-Within (limits o n) cursor ends list_file 0 trees (start o.hash_budget_bytes)
          first)

  with_limit-Promised :
      (limit : Option ℤ) (cursor : Result (Option Cursor)) (r : Result ℤ)
      → normalize_limit limit ≡ r
      → Promised limit cursor (with_limit ends list_file trees (with_defaults opts) r cursor)
  with_limit-Promised limit cursor (failed e) same = inl same
  with_limit-Promised limit cursor (ok n) same =
      with_cursor-Promised limit n cursor (normalize_limit-InRange limit n same)

  -- Whatever the tree, the options, the limit and the cursor, the listing is refused with the error of the
  -- limit or of the cursor, or ends with the context, or is a page that holds at most as many artifacts as
  -- its limit, which is from 1 to 10, has a cursor exactly when it is truncated, is complete by its status
  -- exactly when it is not truncated, and is full when its status says that the limit was reached.
  pub list_artifacts-Promised :
      (limit : Option ℤ) (cursor : Result (Option Cursor))
      → Promised limit cursor (list_artifacts ends list_file trees opts limit cursor)
  unfolding list_artifacts
  list_artifacts-Promised limit cursor =
      with_limit-Promised limit cursor (normalize_limit limit) refl
