-- ===== src/Inventory/Entries.antt =====
-- The entry of a capture in the listing: its hash and what is left of the budget.
use cute_pcap_mcp.Base.{
  ℕ, ◌-◌, ◌<◌, ◌≤◌, true, [], ◌≡◌, refl, ap, ◌∙◌, inl, inr, leb, if◌then◌else◌, arith, Bool-cases,
  length,
}
use cute_pcap_mcp.Base.Text.{Bytes}
use cute_pcap_mcp.Base.Int.{ℤ, pos, lt_ℤ, sub64, half_word}
use cute_pcap_mcp.Errors.{ok}
use cute_pcap_mcp.FilePaths.{FilePath}
use cute_pcap_mcp.Config.{Config}
use cute_pcap_mcp.Artifact.{Lookup, FileInfo, Resolved, resolve_artifact}
use cute_pcap_mcp.Inventory.{
  Answers, computed, budget_reached, Entry, Listed, entry, spend, is_pcap_name, entry_for, run_,
  hashed, over_budget, with_hash,
}
use cute_pcap_mcp.Inventory.Laws.{Honest, reaches_eof, content, outcome, hash_file-eof}

-- What is left of a budget after the bytes that were read.
spend-pos : (b n : ℕ) → b < half_word → n ≤ b → spend (pos b) (pos n) ≡ pos (b - n)
unfolding spend sub64
spend-pos b n hb hn = ground (arith, hb, hn)

module _ (absolute : Bytes → Lookup FilePath) (eval_symlinks : FilePath → Lookup FilePath)
    (stat : FilePath → Lookup FileInfo) (answers : FilePath → Answers) (sha256_hex : Bytes → Bytes)
    (print : FilePath → Bytes) where
  -- The listing of a file with the size and the content given, from a budget.
  abbrev pub listing : Resolved → ℕ → Listed × ℤ
  listing r b =
      let n = length (content (answers r.path)) in
      let base : Entry = record {
        path = r.path;
        size_bytes = r.info.size;
        hash = budget_reached;
      } in
      if lt_ℤ (pos b) r.info.size
      then (entry base, pos b)
      else if leb n b
      then (
        entry (record base { hash = computed (sha256_hex (content (answers r.path))) }),
        pos (b - n),
      )
      else (entry base, pos 0)

  abbrev without_hash : FilePath → ℤ → Entry
  without_hash p size = record { path = p; size_bytes = size; hash = budget_reached }

  with_hash-outcome :
      (p : FilePath) (size : ℤ) (b : ℕ) (c : Bytes)
      → b < half_word
      → with_hash absolute eval_symlinks stat answers sha256_hex print
          (without_hash p size)
          (pos b)
          (outcome b 0 [] c)
        ≡ (if leb (length c) b
            then (
              entry (record (without_hash p size) { hash = computed (sha256_hex c) }),
              pos (b - length c),
            )
            else (entry (without_hash p size), pos 0))
  with_hash-outcome p size b c hb = elim (Bool-cases (leb (length c) b)) [
    | inl h ↦
        let whole : outcome b 0 [] c ≡ run_ (pos (length c)) (hashed c) = ground (arith, h) in
        rw (whole, h)
          (ap (λ z. (entry (record (without_hash p size) { hash = computed (sha256_hex c) }), z))
            (spend-pos b (length c) hb (ground (arith, h))))
    | inr h ↦
        let gone : spend (pos b) (pos b) ≡ pos 0 =
          spend-pos b b hb (omega arith) ∙ ap pos (omega arith) in
        let cut : outcome b 0 [] c ≡ run_ (pos b) over_budget = ground (arith, h) in
        rw (cut, h) (ap (λ z. (entry (without_hash p size), z)) gone)
  ]

  -- A file that resolves, has the name of a capture and is read to its end is listed with the hash of its
  -- whole content when its size and its content are within the budget, which goes down by the bytes of the
  -- content. A size above the budget leaves the budget as it is, and the budget is used up when only the
  -- content is above it; both times the hash is left out for the budget.
  pub entry_for-eof :
      (path : Bytes) (cfg : Config) (r : Resolved) (b : ℕ)
      → resolve_artifact absolute eval_symlinks stat path cfg ≡ ok r
      → is_pcap_name (print r.path) ≡ true
      → b < half_word
      → Honest b 0 (answers r.path)
      → reaches_eof (answers r.path) ≡ true
      → entry_for absolute eval_symlinks stat answers sha256_hex print path cfg (pos b)
        ≡ listing r b
  unfolding entry_for
  entry_for-eof path cfg r b resolves named hb honest eof =
      rw (resolves, named, hash_file-eof b (answers r.path) hb honest eof)
        (elim (Bool-cases (lt_ℤ (pos b) r.info.size)) [
          | inl h ↦ rw h refl
          | inr h ↦ rw h (with_hash-outcome r.path r.info.size b (content (answers r.path)) hb)
        ])
