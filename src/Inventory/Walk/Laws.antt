-- ===== src/Inventory/Walk/Laws.antt =====
-- The limits of the walk: what it has scanned and listed, and when it stops.
use mathlib.Core.Option.{none, some}
use cute_pcap_mcp.Base.{
  length-append, ℕ, ◌<◌, ◌≤◌, Bool, true, false, [], ◌∷◌, Option, ◌≡◌, refl, ◌⊎◌, inl, inr, leb,
  arith, Bool-cases, length,
}
use cute_pcap_mcp.Base.Text.{Bytes}
use cute_pcap_mcp.Base.Int.{ℤ}
use cute_pcap_mcp.Inventory.{
  Cursor, Skip, skipped, ancestor, visited, skip_entry, is_pcap_name, Listed, entry, skip, stopped,
}
use cute_pcap_mcp.Inventory.Walk.{
  State, scan_complete, scan_budget_reached, page_limit_reached, Reply, go_on, skip_dir, stop,
  aborted, Limits, stop_if_needed, count_entry, after_artifact, skip_reply, listed, on_file,
  on_folder, on_broken,
}

-- The walk goes on while both limits leave room.
abbrev pub Running : Limits → State → Type 0
Running l s =
    (s.scanned < l.max_scanned)
    × (length s.artifacts < l.max_artifacts)
    × (s.truncated ≡ false)
    × (s.status ≡ scan_complete)

abbrev pub has_last : State → Bool
has_last s = elim s.last [ none ↦ false | some c ↦ true ]

-- The walk stops at a limit, after an entry, and marks the page as truncated.
abbrev pub Full : Limits → State → Type 0
Full l s =
    (s.scanned ≤ l.max_scanned)
    × (length s.artifacts ≤ l.max_artifacts)
    × (s.truncated ≡ true)
    × (has_last s ≡ true)
    × (((s.status ≡ scan_budget_reached) × (s.scanned ≡ l.max_scanned))
        ⊎ ((s.status ≡ page_limit_reached) × (length s.artifacts ≡ l.max_artifacts)))

abbrev pub Within : Limits → Reply → Type 0
Within l (go_on s) = Running l s
Within l (skip_dir s) = Running l s
Within l (stop s) = Full l s
Within l (aborted s) = Unit

stop_if_needed-Within :
    (l : Limits) (s : State)
    → s.scanned ≤ l.max_scanned
    → length s.artifacts < l.max_artifacts
    → s.truncated ≡ false
    → s.status ≡ scan_complete
    → has_last s ≡ true
    → Within l (stop_if_needed l s)
unfolding stop_if_needed
stop_if_needed-Within l s hs ha ht hc hl = elim (Bool-cases (leb l.max_scanned s.scanned)) [
  | inl p ↦ rw p (hs, omega (arith, ha), refl, hl, inl (refl, ground (arith, hs, p)))
  | inr p ↦ rw p (ground (arith, p), ha, ht, hc)
]

after_artifact-Within :
    (l : Limits) (s : State)
    → s.scanned ≤ l.max_scanned
    → length s.artifacts ≤ l.max_artifacts
    → s.truncated ≡ false
    → s.status ≡ scan_complete
    → has_last s ≡ true
    → Within l (after_artifact l s)
unfolding after_artifact
after_artifact-Within l s hs ha ht hc hl = elim (Bool-cases (leb l.max_scanned s.scanned)) [
  | inl p ↦ rw p (hs, ha, refl, hl, inl (refl, ground (arith, hs, p)))
  | inr p ↦ elim (Bool-cases (leb l.max_artifacts (length s.artifacts))) [
    | inl q ↦ rw (p, q) (hs, ha, refl, hl, inr (refl, ground (arith, ha, q)))
    | inr q ↦ rw (p, q) (ground (arith, p), ground (arith, q), ht, hc)
  ]
]

module _ (l : Limits) (root : ℕ) (cursor : Option Cursor) (ends : Bytes → Bool)
    (list_file : Bytes → ℤ → Listed × ℤ) where
  listed-Within :
      (s : State) (p : Listed × ℤ)
      → s.scanned ≤ l.max_scanned
      → length s.artifacts < l.max_artifacts
      → s.truncated ≡ false
      → s.status ≡ scan_complete
      → has_last s ≡ true
      → Within l (listed l root cursor ends list_file s p)
  listed-Within s (entry e, budget) hs ha ht hc hl =
      after_artifact-Within l _ hs (omega (arith, length-append s.artifacts (e ∷ []), ha)) ht hc hl
  listed-Within s (skip reason, budget) hs ha ht hc hl = stop_if_needed-Within l _ hs ha ht hc hl
  listed-Within s (stopped, budget) hs ha ht hc hl = tt

  skip_reply-Within :
      (k : Skip) (s : State) (on_skip visit : Reply)
      → Running l s
      → Within l on_skip
      → Within l visit
      → Within l (skip_reply k s on_skip visit)
  skip_reply-Within skipped s on_skip visit h a b = a
  skip_reply-Within ancestor s on_skip visit h a b = h
  skip_reply-Within visited s on_skip visit h a b = b

  pub on_file-Within :
      (rel : Bytes) (s : State)
      → Running l s
      → Within l (on_file l root cursor ends list_file rel s)
  unfolding on_file
  on_file-Within rel s h = elim (Bool-cases (ends rel)) [
    | inl p ↦ rw p tt
    | inr p ↦ rw p (
        skip_reply-Within (skip_entry root rel false cursor) s _ _ h h
          (elim (Bool-cases (is_pcap_name rel)) [
            | inl q ↦ rw q (
                listed-Within (count_entry root rel s) (list_file rel s.budget) (omega (arith, h.0))
                  h.1 h.2 h.3 refl)
            | inr q ↦ rw q (stop_if_needed-Within l _ (omega (arith, h.0)) h.1 h.2 h.3 refl)
          ]))
  ]

  pub on_folder-Within :
      (rel : Bytes) (s : State)
      → Running l s
      → Within l (on_folder l root cursor ends list_file rel s)
  unfolding on_folder
  on_folder-Within rel s h = elim (Bool-cases (ends rel)) [
    | inl p ↦ rw p tt
    | inr p ↦ rw p (
        skip_reply-Within (skip_entry root rel true cursor) s _ _ h h
          (elim (Bool-cases (is_pcap_name rel)) [
            | inl q ↦ rw q (stop_if_needed-Within l _ (omega (arith, h.0)) h.1 h.2 h.3 refl)
            | inr q ↦ rw q (stop_if_needed-Within l _ (omega (arith, h.0)) h.1 h.2 h.3 refl)
          ]))
  ]

  pub on_broken-Within :
      (rel : Bytes) (s : State)
      → Running l s
      → Within l (on_broken l root cursor ends list_file rel s)
  unfolding on_broken
  on_broken-Within rel s h = elim (Bool-cases (ends rel)) [
    | inl p ↦ rw p tt
    | inr p ↦ rw p (
        skip_reply-Within (skip_entry root rel true cursor) s _ _ h h
          (stop_if_needed-Within l _ (omega (arith, h.0)) h.1 h.2 h.3 refl))
  ]
