-- ===== src/Handlers/Filtered.antt =====
-- The handler of pcap_filter in `registerTools` of internal/pcap/server.go, with `filterErrorOutput` and
-- `filterErrorOutputWithFindings` of internal/pcap/filter.go.
use cute_pcap_mcp.Base.{List, [], ◌∷◌, ◌++◌, Option, none, some, if◌then◌else◌}
use mathlib.Core.Option.{none, some}
use cute_pcap_mcp.Base.Text.{Bytes, codes, trim_space}
use cute_pcap_mcp.Base.Text.Atoi.{print_int}
use cute_pcap_mcp.Base.Int.{ℤ, pos, lt_ℤ}
use cute_pcap_mcp.Errors.{Result, ok, failed, then_do, ToolError, classify}
use cute_pcap_mcp.Config.{Config}
use cute_pcap_mcp.Artifact.{ArtifactInfo}
use cute_pcap_mcp.Command.{info, Finding}
use cute_pcap_mcp.Server.{Semaphore}
use cute_pcap_mcp.Outputs.{Moment, Disk, OutputArtifact}
use cute_pcap_mcp.Filter.{FilterInput, System, validate_filter_input, run_filter}
use cute_pcap_mcp.Analyze.State.{Env}
use cute_pcap_mcp.Analyze.Findings.{finding}
use cute_pcap_mcp.Handlers.{Reply, Served, refused, answered, inspected, serve, artifact_or}

-- `filterOutput`
pub record FilterOutput : Type 0 where
  pub source : ArtifactInfo
  pub artifact : Option OutputArtifact
  pub packet_count : ℤ
  pub display_filter : Bytes
  pub findings : List Finding
  pub error : Option ToolError

abbrev written_message : ℤ → Bytes
written_message count =
    if lt_ℤ (pos 0) count
    then codes "Wrote filtered pcap with "
      ++ print_int count
      ++ codes " packets matching the display filter."
    else codes
        "Wrote filtered pcap matching the display filter; exact packet count unavailable (capinfos missing or unparseable)."

module _ {F Addr : Type 0} (env : Env F Addr) (sha256_hex : Bytes → Bytes) (cfg : Config)
    (system : System) (now : Moment) where
  abbrev pub error_output : ArtifactInfo → List Finding → ToolError → FilterOutput
  error_output source findings e = record {
    source = source;
    artifact = none;
    packet_count = pos 0;
    display_filter = [];
    findings = findings;
    error = some e;
  }

  abbrev pub filter_error : Option ArtifactInfo → ToolError → FilterOutput
  filter_error a e = error_output (artifact_or env sha256_hex cfg a) [] e

  abbrev pub filter_reply :
      Bytes → ArtifactInfo → List Finding → Result (OutputArtifact × ℤ) → Reply FilterOutput
  filter_reply filter source warnings (failed e) =
      refused (error_output source warnings (classify e))
  filter_reply filter source warnings (ok (a, count)) = answered (record {
    source = source;
    artifact = some a;
    packet_count = count;
    display_filter = filter;
    findings = finding (codes "filtered_pcap_written") info (written_message count) ∷ warnings;
    error = none;
  })

  abbrev pub filter_work : Bytes → ArtifactInfo → Disk → Reply FilterOutput × Disk
  filter_work filter source disk =
      let r = run_filter system cfg filter now source disk in
      (filter_reply filter source r.warnings r.result, r.disk)

  unfoldable pub filter_handler : FilterInput → Semaphore → Disk → Served FilterOutput
  unfolding validate_filter_input inspected serve run_filter classify trim_space then_do print_int
  filter_handler input s disk =
      serve env sha256_hex cfg filter_error (filter_work (trim_space input.display_filter)) s disk (
        then_do (validate_filter_input input)
          (λ valid. inspected env sha256_hex cfg input.path input.expected))
