-- ===== src/Analyze/State.antt =====
-- What the pipeline takes from outside, as a record: the programs, the reader of CSV, the redaction, the
-- files, floating-point numbers and addresses; and the variables of `analyzeArtifact` of
-- internal/pcap/analyzer.go.
use cute_pcap_mcp.Base.{Bool, true, false, ◌||◌, List, [], ◌∷◌, ◌++◌, Option, none, if◌then◌else◌}
use mathlib.Core.Option.{none}
use cute_pcap_mcp.Base.Text.{Bytes}
use cute_pcap_mcp.Base.Int.{ℤ}
use cute_pcap_mcp.Errors.{Result, ToolError}
use cute_pcap_mcp.FilePaths.{FilePath}
use cute_pcap_mcp.Artifact.{Lookup, FileInfo, ArtifactInfo}
use cute_pcap_mcp.Ascii.{Reads}
use cute_pcap_mcp.Command.{Call, Process, Finding}
use cute_pcap_mcp.Keylog.{Status, DecryptionStatus, Resolution, attempted, not_requested}
use cute_pcap_mcp.Zeek.Report.{Machine}
use cute_pcap_mcp.Signals.Build.{Summary}
use cute_pcap_mcp.Profile.{Net}
use cute_pcap_mcp.Analyze.{AnalyzeOutput}

pub record Env (F Addr : Type 0) : Type 0 where
  pub program : Call → Option Process
  pub timeout : Bytes
  pub read_csv : Bytes → Lookup (List (List Bytes))
  pub redact : Bytes → Bytes × Bool
  pub parse_float : Bytes → Option ℤ
  pub zero_float : F
  pub to_float : Bytes → F
  pub machine : Machine
  pub reads : FilePath → Result Reads
  pub read_error : Bytes
  pub absolute : Bytes → Lookup FilePath
  pub eval_symlinks : FilePath → Lookup FilePath
  pub stat : FilePath → Lookup FileInfo
  pub read : FilePath → Lookup Bytes
  pub net : Net Addr

-- The variables of `analyzeArtifact` beside the resolved key log.
pub record State (F : Type 0) : Type 0 where
  pub out : AnalyzeOutput F
  pub truncations : List Finding
  pub keylog_failed : Bool
  pub summary : Option Summary

abbrev pub no_decryption : DecryptionStatus
no_decryption = record {
  status = not_requested;
  keylog_path = none;
  detail = [];
  limitations = false;
}

abbrev pub empty_output : {F : Type 0} → ArtifactInfo → AnalyzeOutput F
empty_output artifact = record {
  artifact = artifact;
  capture_summary = none;
  protocols = [];
  conversations = [];
  packets = [];
  dns = [];
  http = [];
  tls = [];
  tcp_health = none;
  notices = [];
  weird_events = [];
  zeek_logs = [];
  ascii = none;
  tls_decryption = no_decryption;
  profile = none;
  findings = [];
  artifacts = [];
  errors = [];
  error = none;
  zeek_warnings = [];
}

abbrev pub is_active : Status → Bool
is_active attempted = true
is_active _ = false

abbrev pub keylog_of : Resolution → Option FilePath
keylog_of r = if is_active r.status then r.path else none

abbrev pub add_errors : {F : Type 0} → List ToolError → State F → State F
add_errors es s = record s { out = record s.out { errors = s.out.errors ++ es } }

abbrev pub add_truncation : {F : Type 0} → Bool → Finding → State F → State F
add_truncation truncated f s =
    if truncated then record s { truncations = s.truncations ++ f ∷ [] } else s

-- An error of a program that has the key log, where it is in use.
abbrev pub keylog_error : {F : Type 0} → Bool → State F → State F
keylog_error active s = record s { keylog_failed = s.keylog_failed || active }
