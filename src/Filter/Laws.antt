-- ===== src/Filter/Laws.antt =====
-- A run of pcap_filter ends in an artifact, or leaves the workspace as it was when nothing matches.
use cute_pcap_mcp.Base.{true, false, [], Option, none, some, ◌≡◌, refl, sym}
use mathlib.Core.Option.{none, some}
use mathlib.Core.Path.{subst}
use cute_pcap_mcp.Base.Text.{Bytes, codes}
use cute_pcap_mcp.Base.Int.{ℤ}
use cute_pcap_mcp.Errors.{Err, Result, ok, failed}
use cute_pcap_mcp.FilePaths.{FilePath}
use cute_pcap_mcp.Config.{Config}
use cute_pcap_mcp.Artifact.{ArtifactInfo}
use cute_pcap_mcp.Outputs.{
  Moment, Disk, OutputArtifact, capture_id_for, add_dir, is_dir, make_unique_dir, max_attempts,
}
use cute_pcap_mcp.Outputs.Laws.{IsFirstFree, make_unique_dir-IsFirstFree}
use cute_pcap_mcp.Filter.{
  System, FilterRun, stop, in_filter, filter_in, after_make, after_prepare, in_output_dir,
  run_filter,
}
use cute_pcap_mcp.Filter.Clean.{IsTidy}
use cute_pcap_mcp.Filter.Kept.{IsWritten, leaves_nothing, IsDone, filter_in-IsEnd}

module _ (m : System) (cfg : Config) (filter : Bytes) (now : Moment) (source : ArtifactInfo) where
  -- The artifact of a run, in a directory with the first name that was free.
  pub record IsStored (disk after : Disk) (a : OutputArtifact) : Type 0 where
    pub root : FilePath
    pub dir : Bytes
    pub configured : cfg.workspace.output_dir ≡ some root
    pub first_free :
        IsFirstFree (capture_id_for source.sha256 now) disk max_attempts 0 (dir, add_dir dir disk)
    pub written : IsWritten m cfg filter now root dir disk after a

  pub IsOutcome : Disk → Disk → Result (OutputArtifact × ℤ) → Type 0
  IsOutcome disk after (ok (a, n)) = IsStored disk after a
  IsOutcome disk after (failed e) = leaves_nothing e ≡ true → after ≡ disk

  abbrev IsGood : Disk → FilterRun → Type 0
  IsGood disk r = IsOutcome disk r.disk r.result

  unchanged : (disk : Disk) (e : Err) → IsGood disk (stop disk [] e)
  unfolding IsOutcome
  unchanged disk e k = refl

  ran-IsOutcome :
      (root : FilePath) (disk : Disk) (dir : Bytes) (made after : Disk)
      (result : Result (OutputArtifact × ℤ))
      → cfg.workspace.output_dir ≡ some root
      → IsFirstFree (capture_id_for source.sha256 now) disk max_attempts 0 (dir, made)
      → (fresh : is_dir dir disk.dirs ≡ false) (tidy : IsTidy disk) → made ≡ add_dir dir disk
      → IsDone m cfg filter now root dir disk fresh tidy after result
      → IsOutcome disk after result
  unfolding IsOutcome
  ran-IsOutcome root disk dir made after (ok (a, n)) out free fresh tidy e done = record {
    root = root;
    dir = dir;
    configured = out;
    first_free =
        subst (λ d. IsFirstFree (capture_id_for source.sha256 now) disk max_attempts 0 (dir, d)) e
          free;
    written = done;
  }
  ran-IsOutcome root disk dir made after (failed e) out free fresh tidy same done = done

  after_make-IsGood :
      (root : FilePath) (disk : Disk) (made : Result (Bytes × Disk))
      → cfg.workspace.output_dir ≡ some root
      → IsTidy disk
      → make_unique_dir m.refusal source.sha256 now disk ≡ made
      → IsGood disk (after_make m cfg filter now source root disk made)
  after_make-IsGood root disk (failed e) out tidy h = unchanged disk e
  after_make-IsGood root disk (ok (dir, made)) out tidy h =
      let free = make_unique_dir-IsFirstFree m.refusal source.sha256 now disk (dir, made) h in
      let run = filter_in m cfg filter now root dir source in
      subst (λ d. IsGood disk (run d)) (sym free.disk_after)
        (ran-IsOutcome root disk dir made (run (add_dir dir disk)).disk
          (run (add_dir dir disk)).result out free free.fresh tidy free.disk_after
          (filter_in-IsEnd m cfg filter now root dir disk free.fresh tidy source))

  after_prepare-IsGood :
      (root : FilePath) (disk : Disk) (error : Option Bytes)
      → cfg.workspace.output_dir ≡ some root
      → IsTidy disk
      → IsGood disk (after_prepare m cfg filter now source root disk error)
  after_prepare-IsGood root disk (some e) out tidy =
      unchanged disk (in_filter (codes "prepare workspace.output_dir: ") e)
  after_prepare-IsGood root disk none out tidy =
      after_make-IsGood root disk (make_unique_dir m.refusal source.sha256 now disk) out tidy refl

  in_output_dir-IsGood :
      (disk : Disk) (dir : Option FilePath)
      → cfg.workspace.output_dir ≡ dir
      → IsTidy disk
      → IsGood disk (in_output_dir m cfg filter now source disk dir)
  unfolding IsOutcome
  in_output_dir-IsGood disk none out tidy = λ k. refl
  in_output_dir-IsGood disk (some root) out tidy =
      after_prepare-IsGood root disk (m.prepare root) out tidy

  -- On a disk whose files lie in its directories, a run that succeeds has made the directory with the first
  -- free name and put in it the file that its artifact describes, which is within the budget and in which
  -- tshark finds a packet; a run that ends in no_packets_matched or output_limit_reached leaves the disk as
  -- it was.
  pub run_filter-IsOutcome :
      (disk : Disk)
      → IsTidy disk
      → IsOutcome disk
          (run_filter m cfg filter now source disk).disk
          (run_filter m cfg filter now source disk).result
  unfolding run_filter
  run_filter-IsOutcome disk tidy = in_output_dir-IsGood disk cfg.workspace.output_dir refl tidy
