-- ===== src/Analyze/Tests.antt =====
-- A server without Zeek on a capture of five bytes.
use cute_pcap_mcp.Base.{false, List, [], ◌∷◌, Option, none, some, ◌≡◌, refl, if◌then◌else◌}
use mathlib.Core.Option.{none, some}
use cute_pcap_mcp.Base.Text.{Bytes, codes, eq_bytes}
use cute_pcap_mcp.Base.Int.{pos}
use cute_pcap_mcp.Errors.{ok, failed, other}
use cute_pcap_mcp.Artifact.{Lookup, found, not_exist, ArtifactInfo}
use cute_pcap_mcp.Artifact.Tests.{real, absolute, links, stat, config}
use cute_pcap_mcp.Command.{Call, Process, finished}
use cute_pcap_mcp.Keylog.{Status}
use cute_pcap_mcp.Zeek.Report.{Machine}
use cute_pcap_mcp.Profile.Tests.{texts}
use cute_pcap_mcp.Analyze.{AnalyzeInput, validate_analyze_input}
use cute_pcap_mcp.Analyze.State.{Env}
use cute_pcap_mcp.Analyze.Pipeline.{gathered, resolution, analyze_artifact}
use cute_pcap_mcp.Analyze.Decryption.{keylog_broken, analyze_artifact-keylog}
use cute_pcap_mcp.Analyze.Covers.{IsCoveredFrom, analyze_artifact-IsCovered}

abbrev program : Call → Option Process
program c =
    if eq_bytes c.name (codes "zeek")
    then none
    else some (record { stdout = codes "eth frames:1" ∷ []; stderr = []; ending = finished })

abbrev machine : Machine
machine = record {
  program = program;
  timeout = codes "20s";
  make_tmp_dir = λ p. none;
  make_workdir = λ p. none;
  walk_error = λ c. none;
  left = λ c. [];
}

abbrev no_rows : Bytes → Lookup (List (List Bytes))
no_rows raw = found []

abbrev pub env : Env Bytes Bytes
env = record {
  program = program;
  timeout = codes "20s";
  read_csv = no_rows;
  redact = λ s. (s, false);
  parse_float = λ s. none;
  zero_float = [];
  to_float = λ s. s;
  machine = machine;
  reads = λ p. failed (other (codes "no such file"));
  read_error = codes "read error";
  absolute = absolute;
  eval_symlinks = links;
  stat = stat;
  read = λ p. not_exist;
  net = texts;
}

abbrev pub input : AnalyzeInput
input = record {
  path = codes "link";
  include_capinfos = none;
  include_tshark = none;
  include_zeek = none;
  include_ascii = none;
  redact_secrets = none;
  display_filter = [];
  min_string_length = pos 0;
  max_ascii_strings = pos 0;
  max_ascii_bytes = pos 0;
  max_packet_rows = pos 5000;
  max_zeek_records_per_log = pos 0;
  write_artifacts = none;
  expected = record { sha256 = []; size_bytes = none };
  analysis_profile = [];
  f5_context = none;
  tls_keylog_path = [];
}

abbrev pub artifact : ArtifactInfo
artifact = record { path = real; size_bytes = pos 5; sha256 = codes "ab" }

is_valid : validate_analyze_input texts input ≡ ok tt
unfolding validate_analyze_input
is_valid = refl

analyze_artifact-keylog_example :
    (analyze_artifact env config input artifact).tls_decryption.status ≡ (
      if keylog_broken env config input artifact
      then Status.failed
      else (resolution env config input).status)
analyze_artifact-keylog_example = analyze_artifact-keylog env config input artifact

analyze_artifact-IsCovered_example :
    IsCoveredFrom env config input
      (gathered env config input artifact)
      (analyze_artifact env config input artifact)
analyze_artifact-IsCovered_example = analyze_artifact-IsCovered env config input artifact
