-- ===== src/Keylog/Report.antt =====
-- What a response says of the decryption of TLS.
use cute_pcap_mcp.Base.{
  Bool, true, false, Option, none, some, ◌≡◌, ◌≢◌, refl, ◌↔◌, ◌⊎◌, inl, inr, ◌==◌, arith,
  Bool-cases,
}
use mathlib.Core.Option.{none, some}
use cute_pcap_mcp.Base.Text.{Bytes, trim_space, is_empty}
use cute_pcap_mcp.FilePaths.{FilePath, path_contains}
use cute_pcap_mcp.Config.{Config}
use cute_pcap_mcp.Artifact.{Lookup, found, not_exist, broken, FileInfo}
use cute_pcap_mcp.Keylog.{
  Status, not_requested, unavailable, keylog_missing, keylog_invalid, attempted, succeeded, failed,
  DecryptionStatus, Summary, Resolution, validate_file, judge_summary, resolve_keylog, after_stat,
  after_links, after_absolute, in_dir, finalize, keylog_path_or_empty,
}

-- A path is resolved exactly for the status attempted.
abbrev Settled : Resolution → Type 0
Settled r =
    ((p : FilePath) × (r.status ≡ attempted) × (r.path ≡ some p) × (is_empty r.detail ≡ false))
    ⊎ ((r.status ≢ attempted) × (r.status ≢ succeeded) × (r.status ≢ failed) × (r.path ≡ none))

abbrev is_early : Status → Bool
is_early attempted = false
is_early succeeded = false
is_early failed = false
is_early _ = true

-- The second case, for a status that the resolution gives without a path.
early :
    (s : Status)
    → is_early s ≡ true
    → (s ≢ attempted) × (s ≢ succeeded) × (s ≢ failed) × (◌≡◌ {A = Option FilePath} none none)
early s h = (λ e. cc (rw e at h), λ e. cc (rw e at h), λ e. cc (rw e at h), refl)

judge_summary-Settled : (p : FilePath) (o : Option Summary) → Settled (judge_summary p o)
unfolding judge_summary
judge_summary-Settled p none = inr (early _ refl)
judge_summary-Settled p (some t) = elim (Bool-cases (t.usable_secret_lines == 0)) [
  | inl z ↦ elim (Bool-cases (t.non_comment_lines == 0)) [
    | inl y ↦ rw (z, y) (inr (early _ refl))
    | inr y ↦ rw (z, y) (inr (early _ refl))
  ]
  | inr z ↦ rw z (inl (p, refl, refl, refl))
]

module _ (absolute : Bytes → Lookup FilePath) (eval_symlinks : FilePath → Lookup FilePath)
    (stat : FilePath → Lookup FileInfo) (read : FilePath → Lookup Bytes) where
  after_stat-Settled :
      (p : FilePath) (o : Lookup FileInfo)
      → Settled (after_stat absolute eval_symlinks stat read p o)
  after_stat-Settled p not_exist = inr (early _ refl)
  after_stat-Settled p (broken t) = inr (early _ refl)
  after_stat-Settled p (found info) = elim (Bool-cases info.is_regular) [
    | inl r ↦ rw r (judge_summary-Settled p (validate_file (read p)))
    | inr r ↦ rw r (inr (early _ refl))
  ]

  after_links-Settled :
      (dir : FilePath) (o : Lookup FilePath)
      → Settled (after_links absolute eval_symlinks stat read dir o)
  after_links-Settled dir not_exist = inr (early _ refl)
  after_links-Settled dir (broken t) = inr (early _ refl)
  after_links-Settled dir (found p) = elim (Bool-cases (path_contains dir p)) [
    | inl r ↦ rw r (after_stat-Settled p (stat p))
    | inr r ↦ rw r (inr (early _ refl))
  ]

  after_absolute-Settled :
      (dir : FilePath) (o : Lookup FilePath)
      → Settled (after_absolute absolute eval_symlinks stat read dir o)
  after_absolute-Settled dir not_exist = inr (early _ refl)
  after_absolute-Settled dir (broken t) = inr (early _ refl)
  after_absolute-Settled dir (found abs) = after_links-Settled dir (eval_symlinks abs)

  in_dir-Settled :
      (raw : Bytes) (o : Option FilePath) → Settled (in_dir absolute eval_symlinks stat read raw o)
  in_dir-Settled raw none = inr (early _ refl)
  in_dir-Settled raw (some dir) = after_absolute-Settled dir (absolute raw)

  pub resolve_keylog-Settled :
      (raw : Bytes) (cfg : Config)
      → Settled (resolve_keylog absolute eval_symlinks stat read raw cfg)
  unfolding resolve_keylog
  resolve_keylog-Settled raw cfg = elim (Bool-cases (is_empty (trim_space raw))) [
    | inl r ↦ rw r (inr (early _ refl))
    | inr r ↦ rw r (in_dir-Settled raw cfg.workspace.keylog_dir)
  ]

-- What the final status says of a resolution and of the run of the analyzers.
pub record IsReported (r : Resolution) (analyzer_failed : Bool) (d : DecryptionStatus)
    : Type 0 where
  pub attempt : (d.status ≡ attempted) ↔ ((r.status ≡ attempted) × (analyzer_failed ≡ false))
  pub failure : (d.status ≡ failed) ↔ ((r.status ≡ attempted) × (analyzer_failed ≡ true))
  pub no_success : d.status ≢ succeeded
  pub kept : r.status ≢ attempted → d.status ≡ r.status
  pub path : d.keylog_path ≡ r.path
  pub warned : (d.limitations ≡ false) ↔ (d.status ≡ not_requested)

-- The status of a response, from what was resolved.
abbrev pub reported : Resolution → Bool → DecryptionStatus
reported r analyzer_failed =
    finalize r.status r.detail analyzer_failed (keylog_path_or_empty r.status r.path)

reported-IsReported :
    (s : Status) (detail : Bytes) (path : Option FilePath) (analyzer_failed : Bool)
    → Settled (record { path = path; status = s; detail = detail })
    → IsReported
        (record { path = path; status = s; detail = detail })
        analyzer_failed
        (reported (record { path = path; status = s; detail = detail }) analyzer_failed)
unfolding finalize
reported-IsReported attempted d p true h = ground arith
reported-IsReported attempted d p false h = ground arith
reported-IsReported not_requested d p f h = ground arith
reported-IsReported unavailable d p f h = ground arith
reported-IsReported keylog_missing d p f h = ground arith
reported-IsReported keylog_invalid d p f h = ground arith
reported-IsReported succeeded d p f h = ground arith
reported-IsReported failed d p f h = ground arith

module _ (absolute : Bytes → Lookup FilePath) (eval_symlinks : FilePath → Lookup FilePath)
    (stat : FilePath → Lookup FileInfo) (read : FilePath → Lookup Bytes) where
  -- Whatever the path of the keylog and the run of the analyzers, the final status is attempted or failed
  -- exactly if the path was resolved and the analyzers did not fail or failed, is never succeeded, is the
  -- status of the resolution otherwise, shows the path exactly if it was resolved, and has the warnings
  -- exactly if decryption was requested.
  pub keylog-IsReported :
      (raw : Bytes) (cfg : Config) (analyzer_failed : Bool)
      → IsReported
          (resolve_keylog absolute eval_symlinks stat read raw cfg)
          analyzer_failed
          (reported (resolve_keylog absolute eval_symlinks stat read raw cfg) analyzer_failed)
  keylog-IsReported raw cfg analyzer_failed =
      let r = resolve_keylog absolute eval_symlinks stat read raw cfg in
      reported-IsReported r.status r.detail r.path analyzer_failed
        (resolve_keylog-Settled absolute eval_symlinks stat read raw cfg)
