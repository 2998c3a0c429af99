-- ===== src/Filter.antt =====
-- Derived captures: `validateFilterInput`, `runFilter` and `tsharkHasAnyPacket` of
-- internal/pcap/filter.go. The system is a record: the programs, the errors of the file system, the content
-- that a run leaves at the path of its output, and `quote`, which is the verb %q.
pub mod Clean
pub mod Kept
pub mod Laws
pub mod Tests
use cute_pcap_mcp.Base.{
  ℕ, zero, suc, ◌+◌, ◌-◌, ◌*◌, ◌%◌, ◌/◌, ◌<◌, ◌≤◌, Bool, true, false, not, ◌&&◌, ◌||◌, List, [],
  ◌∷◌, ◌++◌, map, Option, none, some, ◌≡◌, ◌≢◌, refl, sym, ap, ◌∙◌, ◌↔◌, ◌⊎◌, inl, inr, ltb, leb,
  ◌==◌, if◌then◌else◌, All, All-append, arith, Bool-cases, Option-cases, some_eq, length, any, all,
  take, drop, get_elem?, length-append, length-take, not-true,
}
use mathlib.Core.Option.{none, some}
use cute_pcap_mcp.Base.Text.{Bytes, codes, eq_bytes, contains_byte, trim_space, is_empty}
use cute_pcap_mcp.Base.Text.Atoi.{print_int}
use cute_pcap_mcp.Base.Int.{ℤ, pos, lt_ℤ}
use cute_pcap_mcp.Errors.{
  Err, Result, ok, failed, require, wrapped, is, validation, contains_nul, too_long,
  missing_field_error, invalid_filter_error, trim_sentinel_prefix, err_analyzer_failed,
  err_output_limit_reached, err_no_packets_matched,
}
use cute_pcap_mcp.FilePaths.{FilePath}
use cute_pcap_mcp.Config.{Config}
use cute_pcap_mcp.Artifact.{ArtifactInfo, Expectations, print_path}
use cute_pcap_mcp.Command.{
  Call, Process, Run, Output, Finding, run_command, is_filter_error, is_truncated_diagnostic,
  truncation_finding,
}
use cute_pcap_mcp.Capinfos.{count_packets}
use cute_pcap_mcp.Outputs.{
  Moment, File, Disk, OutputArtifact, artifact_of, make_unique_dir, put_file, remove_file,
  remove_dir,
}

-- `filterInput`, with its expectations.
pub record FilterInput : Type 0 where
  pub path : Bytes
  pub display_filter : Bytes
  pub expected : Expectations

abbrev pub max_filter_bytes : ℕ
max_filter_bytes = 4096

unfoldable pub validate_filter_input : FilterInput → Result (Unit {0})
unfolding require trim_space contains_byte missing_field_error
validate_filter_input input =
    let df = trim_space input.display_filter in
    require (not (is_empty input.path)) (missing_field_error (codes "path")) (
      require (not (is_empty df)) (missing_field_error (codes "display_filter")) (
        require (not (contains_byte df 0))
          (validation (codes "display_filter") contains_nul
            (codes "display_filter must not contain NUL bytes"))
          (require (leb (length df) max_filter_bytes)
            (validation (codes "display_filter") too_long
              (codes "display_filter must be 4096 bytes or less"))
            (ok tt))))

pub record System : Type 0 where
  pub program : Call → Option Process
  pub timeout : Bytes
  pub prepare : FilePath → Option Bytes
  pub refusal : Bytes → Option Bytes
  pub written : Call → Option Bytes
  pub read_error : FilePath → Option Bytes
  pub sha256_hex : Bytes → Bytes
  pub quote : Bytes → Bytes
  pub to_int : Bytes → Option ℤ

-- What a run gives: the disk after it, its warnings, and the artifact with its count of packets.
pub record FilterRun : Type 0 where
  pub disk : Disk
  pub warnings : List Finding
  pub result : Result (OutputArtifact × ℤ)

abbrev pub stop : Disk → List Finding → Err → FilterRun
stop disk warnings e = record { disk = disk; warnings = warnings; result = failed e }

abbrev pub filtered : Bytes
filtered = codes "filtered.pcap"

abbrev pub pcap_file : Bytes → Bytes → File
pcap_file dir body = record { dir = dir; name = filtered; content = body }

-- The two calls of os.Remove.
unfoldable pub clean_up : Bytes → Disk → Disk
unfolding remove_file remove_dir
clean_up dir disk = remove_dir dir (remove_file dir filtered disk)

abbrev no_match : (Bytes → Bytes) → Bytes → List Finding → Err
no_match quote filter [] =
    wrapped err_no_packets_matched
      (codes "display filter " ++ quote filter ++ codes " produced zero packets")
no_match quote filter (w ∷ ws) = wrapped err_no_packets_matched (
    codes "display filter "
    ++ quote filter
    ++ codes
        " produced zero packets in the readable prefix; matches after the truncation point are unknown")

abbrev pub in_filter : Bytes → Bytes → Err
in_filter what detail = wrapped err_analyzer_failed (what ++ detail)

module _ (m : System) (cfg : Config) (filter : Bytes) (now : Moment) (root : FilePath)
    (dir : Bytes) where
  abbrev pub out_path : FilePath
  out_path = root ++ dir ∷ filtered ∷ []

  abbrev filter_call : ArtifactInfo → Call
  filter_call source = record {
    name = codes "tshark";
    args =
        codes "-n"
        ∷ codes "-r"
        ∷ print_path source.path
        ∷ codes "-Y"
        ∷ filter
        ∷ codes "-F"
        ∷ codes "pcap"
        ∷ codes "-w"
        ∷ print_path out_path
        ∷ [];
    env = [];
  }

  abbrev check_call : Call
  check_call = record {
    name = codes "tshark";
    args =
        codes "-n"
        ∷ codes "-r"
        ∷ print_path out_path
        ∷ codes "-c"
        ∷ codes "1"
        ∷ codes "-T"
        ∷ codes "fields"
        ∷ codes "-E"
        ∷ codes "header=n"
        ∷ codes "-e"
        ∷ codes "frame.number"
        ∷ [];
    env = [];
  }

  abbrev pub artifact : Bytes → OutputArtifact
  artifact body =
      artifact_of m.sha256_hex root (pcap_file dir body) (codes "application/vnd.tcpdump.pcap")
        (codes "filtered_pcap") now

  -- `tsharkHasAnyPacket`, from what its run prints, and what follows it.
  unfoldable pub after_check : Bytes → List Finding → Disk → Bytes → Option Err → FilterRun
  unfolding clean_up trim_space count_packets print_path
  after_check body warnings disk stdout (some e) = stop disk [] e
  after_check body warnings disk stdout none =
      if is_empty (trim_space stdout)
      then stop (clean_up dir disk) warnings (no_match m.quote filter warnings)
      else record {
        disk = disk;
        warnings = warnings;
        result = ok (
          artifact body,
          count_packets tt (λ s. tt) m.to_int m.program m.timeout (print_path out_path),
        );
      }

  abbrev pub check_run : Run
  check_run = run_command m.program m.timeout (pos 65536) check_call

  abbrev pub after_read : Bytes → List Finding → Disk → Option Bytes → FilterRun
  after_read body warnings disk (some e) =
      stop disk [] (in_filter (codes "read filtered pcap for hash: ") e)
  after_read body warnings disk none =
      after_check body warnings disk check_run.output.stdout check_run.error

  abbrev pub is_over_budget : Bytes → Bool
  is_over_budget body =
      lt_ℤ (pos 0) cfg.analysis.output_disk_budget_bytes
      && lt_ℤ cfg.analysis.output_disk_budget_bytes (pos (length body))

  abbrev over_budget : Bytes → Err
  over_budget body = wrapped err_output_limit_reached (
      codes "filtered pcap is "
      ++ print_int (pos (length body))
      ++ codes " bytes; exceeds analysis.output_disk_budget_bytes ("
      ++ print_int cfg.analysis.output_disk_budget_bytes
      ++ codes ")")

  -- The file at the path of the output, if the run left one there.
  unfoldable pub after_stat : List Finding → Disk → Option Bytes → FilterRun
  unfolding clean_up after_check run_command print_int
  after_stat warnings disk none =
      stop disk [] (in_filter (codes "stat filtered pcap: ") (codes "no such file or directory"))
  after_stat warnings disk (some body) =
      if is_over_budget body
      then stop (clean_up dir disk) [] (over_budget body)
      else after_read body warnings disk (m.read_error out_path)

  abbrev pub is_tolerated : Bytes → Err → Bool
  is_tolerated stderr e = is e err_analyzer_failed && is_truncated_diagnostic stderr

  -- The error of the run that writes the output.
  unfoldable pub after_run : Disk → Option Bytes → Bytes → Option Err → FilterRun
  unfolding after_stat is_filter_error truncation_finding trim_sentinel_prefix invalid_filter_error
      is
  after_run disk body stderr none = after_stat [] disk body
  after_run disk body stderr (some e) =
      if is_filter_error e
      then stop disk [] (invalid_filter_error (trim_sentinel_prefix e err_analyzer_failed))
      else if is_tolerated stderr e
      then after_stat (truncation_finding (codes "tshark") stderr ∷ []) disk body
      else stop disk [] e

  abbrev pub with_file : Option Bytes → Disk → Disk
  with_file none disk = disk
  with_file (some body) disk = put_file (pcap_file dir body) disk

  abbrev pub left_by : Call → Option Process → Option Bytes
  left_by c none = none
  left_by c (some p) = m.written c

  -- The run in the directory that was made for it.
  unfoldable pub filter_in : ArtifactInfo → Disk → FilterRun
  unfolding after_run run_command put_file
  filter_in source disk =
      let c = filter_call source in
      let body = left_by c (m.program c) in
      let r = run_command m.program m.timeout cfg.analysis.max_stdout_bytes c in
      after_run (with_file body disk) body r.output.stderr r.error

module _ (m : System) (cfg : Config) (filter : Bytes) (now : Moment) (source : ArtifactInfo) where
  abbrev pub after_make : FilePath → Disk → Result (Bytes × Disk) → FilterRun
  after_make root disk (failed e) = stop disk [] e
  after_make root disk (ok (dir, made)) = filter_in m cfg filter now root dir source made

  abbrev pub after_prepare : FilePath → Disk → Option Bytes → FilterRun
  after_prepare root disk (some e) =
      stop disk [] (in_filter (codes "prepare workspace.output_dir: ") e)
  after_prepare root disk none =
      after_make root disk (make_unique_dir m.refusal source.sha256 now disk)

  abbrev pub in_output_dir : Disk → Option FilePath → FilterRun
  in_output_dir disk none = stop disk [] (
      in_filter
        (codes "workspace.output_dir is not configured; pcap_filter requires an output workspace")
        [])
  in_output_dir disk (some root) = after_prepare root disk (m.prepare root)

  -- `runFilter`
  unfoldable pub run_filter : Disk → FilterRun
  unfolding filter_in make_unique_dir
  run_filter disk = in_output_dir disk cfg.workspace.output_dir
