-- ===== src/Filter/Kept.antt =====
-- What a run of pcap_filter leaves in the output workspace.
use cute_pcap_mcp.Base.{
  Bool, true, false, ◌||◌, List, [], ◌∷◌, Option, none, some, ◌≡◌, refl, sym, ap, ◌∙◌, inl, inr,
  arith, Bool-cases,
}
use mathlib.Core.Option.{none, some}
use cute_pcap_mcp.Base.Text.{Bytes, codes, trim_space, is_empty}
use cute_pcap_mcp.Base.Int.{ℤ, pos}
use cute_pcap_mcp.Errors.{
  Err, Result, ok, failed, is, invalid_filter_error, trim_sentinel_prefix, err_analyzer_failed,
  err_no_packets_matched, err_output_limit_reached,
}
use cute_pcap_mcp.FilePaths.{FilePath}
use cute_pcap_mcp.Config.{Config}
use cute_pcap_mcp.Artifact.{ArtifactInfo}
use cute_pcap_mcp.Command.{
  truncation_finding, captured, ended, run_process, Call, Process, finished, exited, stopped,
  Finding, run_command, is_filter_error,
}
use cute_pcap_mcp.Outputs.{Moment, Disk, OutputArtifact, add_dir, put_file, is_dir}
use cute_pcap_mcp.Filter.{
  System, FilterRun, stop, pcap_file, artifact, clean_up, out_path, check_call, check_run,
  filter_call, is_over_budget, is_tolerated, with_file, left_by, in_filter, after_check, after_read,
  after_stat, after_run, filter_in,
}
use cute_pcap_mcp.Filter.Clean.{IsTidy, clean_up-put_file}

-- The errors of a filter that matches nothing and of a budget that is passed.
abbrev pub leaves_nothing : Err → Bool
leaves_nothing e = is e err_no_packets_matched || is e err_output_limit_reached

abbrev pub IsPlain : Option Err → Type 0
IsPlain none = Unit
IsPlain (some e) = leaves_nothing e ≡ false

-- No run of a program ends in one of those errors.
run_command-IsPlain :
    (program : Call → Option Process) (timeout : Bytes) (max : ℤ) (c : Call)
    → IsPlain (run_command program timeout max c).error
unfolding run_command is
run_command-IsPlain program timeout max c =
    elim (program c) as (λ o. IsPlain (run_process timeout max c o).error) [
      | none ↦ refl
      | some p ↦ elim p.ending as (λ e. IsPlain (ended c timeout (captured max p) e)) [
        | finished ↦ tt
        | exited ↦ refl
        | stopped ↦ refl
      ]
    ]

-- The parts of an artifact that was written.
pub record IsWritten (m : System) (cfg : Config) (filter : Bytes) (now : Moment) (root : FilePath)
    (dir : Bytes) (disk after : Disk) (a : OutputArtifact) : Type 0 where
  pub body : Bytes
  pub artifact_of_body : a ≡ artifact m cfg filter now root dir body
  pub stored : after ≡ put_file (pcap_file dir body) (add_dir dir disk)
  pub within : is_over_budget m cfg filter now root dir body ≡ false
  pub some_packet :
      is_empty (trim_space (check_run m cfg filter now root dir).output.stdout) ≡ false

module _ (m : System) (cfg : Config) (filter : Bytes) (now : Moment) (root : FilePath) (dir : Bytes)
    (disk : Disk) (fresh : is_dir dir disk.dirs ≡ false) (tidy : IsTidy disk) where
  abbrev pub IsDone : Disk → Result (OutputArtifact × ℤ) → Type 0
  IsDone after (ok (a, n)) = IsWritten m cfg filter now root dir disk after a
  IsDone after (failed e) = leaves_nothing e ≡ true → after ≡ disk

  abbrev pub IsEnd : FilterRun → Type 0
  IsEnd r = IsDone r.disk r.result

  plain_stop :
      (d : Disk) (ws : List Finding) (e : Err) → leaves_nothing e ≡ false → IsEnd (stop d ws e)
  plain_stop d ws e h k = absurd (ground (arith, h, k))

  cleaned :
      (body : Bytes) (ws : List Finding) (e : Err)
      → IsEnd (stop (clean_up dir (put_file (pcap_file dir body) (add_dir dir disk))) ws e)
  cleaned body ws e k = clean_up-put_file dir body disk fresh tidy

  abbrev stored : Bytes → Disk
  stored body = put_file (pcap_file dir body) (add_dir dir disk)

  after_check-IsEnd :
      (body : Bytes) (ws : List Finding) (stdout : Bytes) (error : Option Err)
      → IsPlain error
      → is_over_budget m cfg filter now root dir body ≡ false
      → stdout ≡ (check_run m cfg filter now root dir).output.stdout
      → IsEnd (after_check m cfg filter now root dir body ws (stored body) stdout error)
  unfolding after_check
  after_check-IsEnd body ws stdout (some e) plain within printed =
      plain_stop (stored body) [] e plain
  after_check-IsEnd body ws stdout none plain within printed =
      elim (Bool-cases (is_empty (trim_space stdout))) [
        | inl p ↦ rw (p) (λ k. clean_up-put_file dir body disk fresh tidy)
        | inr p ↦ rw (p) (record {
          body = body;
          artifact_of_body = refl;
          stored = refl;
          within = within;
          some_packet = ap (λ t. is_empty (trim_space t)) (sym printed) ∙ p;
        })
      ]

  after_read-IsEnd :
      (body : Bytes) (ws : List Finding) (error : Option Bytes)
      → is_over_budget m cfg filter now root dir body ≡ false
      → IsEnd (after_read m cfg filter now root dir body ws (stored body) error)
  unfolding is
  after_read-IsEnd body ws (some e) within =
      plain_stop (stored body) [] (in_filter (codes "read filtered pcap for hash: ") e) refl
  after_read-IsEnd body ws none within =
      after_check-IsEnd body ws (check_run m cfg filter now root dir).output.stdout
        (check_run m cfg filter now root dir).error
        (run_command-IsPlain m.program m.timeout (pos 65536) (check_call m cfg filter now root dir))
        within refl

  -- The disk after the run that writes the output.
  abbrev left : Option Bytes → Disk
  left body = with_file m cfg filter now root dir body (add_dir dir disk)

  invalid_stop : (d : Disk) (detail : Bytes) → IsEnd (stop d [] (invalid_filter_error detail))
  unfolding is invalid_filter_error
  invalid_stop d detail k = absurd (ground (arith, k))

  after_stat-IsEnd :
      (ws : List Finding) (body : Option Bytes)
      → IsEnd (
          after_stat m cfg filter now root dir ws
            (with_file m cfg filter now root dir body (add_dir dir disk))
            body)
  unfolding after_stat is
  after_stat-IsEnd ws none =
      plain_stop (add_dir dir disk) []
        (in_filter (codes "stat filtered pcap: ") (codes "no such file or directory")) refl
  after_stat-IsEnd ws (some body) =
      elim (Bool-cases (is_over_budget m cfg filter now root dir body)) [
        | inl p ↦ rw (p) (λ k. clean_up-put_file dir body disk fresh tidy)
        | inr p ↦
            rw (p) (after_read-IsEnd body ws (m.read_error (out_path m cfg filter now root dir)) p)
      ]

  after_run-IsEnd :
      (body : Option Bytes) (stderr : Bytes) (error : Option Err)
      → IsPlain error
      → IsEnd (after_run m cfg filter now root dir (left body) body stderr error)
  unfolding after_run
  after_run-IsEnd body stderr none plain = after_stat-IsEnd [] body
  after_run-IsEnd body stderr (some e) plain = elim (Bool-cases (is_filter_error e)) [
    | inl p ↦ rw (p) (invalid_stop (left body) (trim_sentinel_prefix e err_analyzer_failed))
    | inr p ↦ elim (Bool-cases (is_tolerated m cfg filter now root dir stderr e)) [
      | inl q ↦ rw (p, q) (after_stat-IsEnd (truncation_finding (codes "tshark") stderr ∷ []) body)
      | inr q ↦ rw (p, q) (plain_stop (left body) [] e plain)
    ]
  ]

  pub filter_in-IsEnd :
      (source : ArtifactInfo)
      → IsEnd (filter_in m cfg filter now root dir source (add_dir dir disk))
  unfolding filter_in
  filter_in-IsEnd source =
      let c = filter_call m cfg filter now root dir source in
      let r = run_command m.program m.timeout cfg.analysis.max_stdout_bytes c in
      after_run-IsEnd (left_by m cfg filter now root dir c (m.program c)) r.output.stderr r.error
        (run_command-IsPlain m.program m.timeout cfg.analysis.max_stdout_bytes c)
