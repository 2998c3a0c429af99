-- ===== src/Zeek/Report.antt =====
-- A run of Zeek on a capture: `runZeekReport` and `dirSizeBytes` of internal/pcap/analyzer.go. The file
-- system is a record: the errors of MkdirAll and MkdirTemp, and the files that the run leaves in the
-- directory made for it, which is removed at the end.
use cute_pcap_mcp.Base.{
  ◌-◌, Bool, true, false, ◌&&◌, List, [], ◌∷◌, ◌++◌, Option, none, some, if◌then◌else◌, length,
  take,
}
use mathlib.Core.Option.{none, some}
use mathlib.Core.List.{reverse}
use cute_pcap_mcp.Base.Sort.{sort}
use cute_pcap_mcp.Base.Text.{Bytes, codes, lt_bytes, has_prefix, trim_space}
use cute_pcap_mcp.Base.Text.Atoi.{print_int}
use cute_pcap_mcp.Base.Int.{ℤ, pos, lt_ℤ, add64}
use cute_pcap_mcp.Errors.{
  Err, Result, ok, failed, then_do, wrapped, other, is, text, err_analyzer_failed,
  err_tmp_budget_exceeded,
}
use cute_pcap_mcp.FilePaths.{FilePath}
use cute_pcap_mcp.Artifact.{Lookup, FileInfo, print_path}
use cute_pcap_mcp.Config.{Config}
use cute_pcap_mcp.Command.{Call, Process, Run, Output, run_command, is_truncated_diagnostic}
use cute_pcap_mcp.Zeek.{Log, parse_log}

-- A file in the directory of the run, by its name.
pub record LeftFile : Type 0 where
  pub name : Bytes
  pub info : FileInfo
  pub content : Lookup Bytes

pub record Machine : Type 0 where
  pub program : Call → Option Process
  pub timeout : Bytes
  pub make_tmp_dir : FilePath → Option Bytes
  pub make_workdir : Option FilePath → Option Bytes
  pub walk_error : Call → Option Bytes
  pub left : Call → List LeftFile

pub record ZeekReport : Type 0 where
  pub logs : List Log
  pub warnings : Bytes

unfoldable pub total_size : ℤ → List LeftFile → ℤ
unfolding add64
total_size total [] = total
total_size total (f ∷ fs) =
    total_size (if f.info.is_regular then add64 total f.info.size else total) fs

unfoldable pub has_log_suffix : Bytes → Bool
unfolding has_prefix
has_log_suffix name = has_prefix (reverse name) (codes "gol.")

abbrev stem : Bytes → Bytes
stem name = take (length name - 4) name

abbrev by_name : LeftFile → LeftFile → Bool
by_name a b = lt_bytes a.name b.name

abbrev only_logs : List LeftFile → List LeftFile
only_logs [] = []
only_logs (f ∷ fs) = let rest = only_logs fs in if has_log_suffix f.name then f ∷ rest else rest

-- The files that Glob finds, sorted.
unfoldable pub log_files : List LeftFile → List LeftFile
unfolding has_log_suffix sort lt_bytes
log_files fs = sort by_name (only_logs fs)

unfoldable pub zeek_call : FilePath → Option FilePath → Call
unfolding print_path
zeek_call path keylog = record {
  name = codes "zeek";
  args = codes "-C" ∷ codes "-r" ∷ print_path path ∷ [];
  env = elim keylog [ none ↦ [] | some k ↦ (codes "SSLKEYLOGFILE=" ++ print_path k) ∷ [] ];
}

abbrev in_analyzer : Bytes → Bytes → Err
in_analyzer what detail = wrapped err_analyzer_failed (what ++ detail)

module _ (redact : Bytes → Bytes) (max_records : ℤ) where
  -- The loop over the logs, which ends at the first that cannot be parsed.
  unfoldable pub parse_logs : List LeftFile → Result (List Log)
  unfolding parse_log text
  parse_logs [] = ok []
  parse_logs (f ∷ fs) = elim (parse_log redact max_records (stem f.name) f.content) [
    | failed e ↦ failed (in_analyzer (codes "parse " ++ f.name ++ codes ": ") (text e))
    | ok log ↦ elim (parse_logs fs) [ failed e ↦ failed e | ok logs ↦ ok (log ∷ logs) ]
  ]

module _ (m : Machine) (redact : Bytes → Bytes) (cfg : Config) (max_records : ℤ) where
  abbrev pub within_budget : Call → Result ℤ → Result (List LeftFile)
  within_budget c (failed e) = failed e
  within_budget c (ok used) =
      if lt_ℤ cfg.analysis.tmp_disk_budget_bytes used
      then failed (
          wrapped err_tmp_budget_exceeded (
            codes "zeek wrote "
            ++ print_int used
            ++ codes " bytes; exceeds analysis.tmp_disk_budget_bytes ("
            ++ print_int cfg.analysis.tmp_disk_budget_bytes
            ++ codes ")"))
      else ok (m.left c)

  abbrev pub measured : Call → Option Bytes → Result ℤ
  measured c (some e) = failed (in_analyzer (codes "measure tmp_dir use: ") e)
  measured c none = ok (total_size (pos 0) (m.left c))

  -- The files of the run, if they are within the budget for them.
  unfoldable pub kept_files : Call → Result (List LeftFile)
  unfolding total_size print_int
  kept_files c =
      if lt_ℤ (pos 0) cfg.analysis.tmp_disk_budget_bytes
      then within_budget c (measured c (m.walk_error c))
      else ok (m.left c)

  abbrev pub after_run : Call → Output → Bool → Result (ZeekReport × Bool)
  after_run c out truncated = then_do (kept_files c) (λ files.
      then_do (parse_logs redact max_records (log_files files))
        (λ logs. ok (record { logs = logs; warnings = trim_space out.stderr }, truncated)))

  abbrev pub judge_run : Call → Run → Result (ZeekReport × Bool)
  judge_run c r = elim r.error [
    | none ↦ after_run c r.output false
    | some e ↦
        if is e err_analyzer_failed && is_truncated_diagnostic r.output.stderr
        then after_run c r.output true
        else failed e
  ]

  abbrev in_workdir : Call → Option Bytes → Result (ZeekReport × Bool)
  in_workdir c (some e) = failed (other e)
  in_workdir c none = judge_run c (run_command m.program m.timeout cfg.analysis.max_stdout_bytes c)

  abbrev prepared : Option FilePath → Option Bytes
  prepared none = none
  prepared (some dir) = m.make_tmp_dir dir

  abbrev after_prepare : Call → Option Bytes → Result (ZeekReport × Bool)
  after_prepare c (some e) = failed (in_analyzer (codes "prepare workspace.tmp_dir: ") e)
  after_prepare c none = in_workdir c (m.make_workdir cfg.workspace.tmp_dir)

  -- `runZeekReport`
  unfoldable pub run_zeek : FilePath → Option FilePath → Result (ZeekReport × Bool)
  unfolding zeek_call run_command is then_do kept_files parse_logs log_files trim_space
  run_zeek path keylog = after_prepare (zeek_call path keylog) (prepared cfg.workspace.tmp_dir)
