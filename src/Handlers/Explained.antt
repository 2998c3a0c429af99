-- ===== src/Handlers/Explained.antt =====
-- The handler of pcap_explain_connection in `registerTools` of internal/pcap/server.go, with
-- `explainConnection` and `explainErrorOutput` of internal/pcap/explain.go. `quote` is the verb %q.
use cute_pcap_mcp.Base.{Bool, true, false, List, [], ◌∷◌, ◌++◌, Option, none, some, if◌then◌else◌}
use mathlib.Core.Option.{none, some}
use cute_pcap_mcp.Base.Text.{Bytes, codes}
use cute_pcap_mcp.Base.Int.{pos}
use cute_pcap_mcp.Errors.{Result, ok, failed, ToolError, classify}
use cute_pcap_mcp.Config.{Config}
use cute_pcap_mcp.Artifact.{ArtifactInfo, print_path}
use cute_pcap_mcp.Command.{info, Finding}
use cute_pcap_mcp.Server.{Semaphore}
use cute_pcap_mcp.Outputs.{Disk, OutputArtifact}
use cute_pcap_mcp.Zeek.Report.{ZeekReport, run_zeek}
use cute_pcap_mcp.Explain.{ExplainInput, validate_explain_input}
use cute_pcap_mcp.Explain.Resolve.{
  Resolution, by_five_tuple, by_zeek_uid, by_frame_number, ResolvedSelector, resolve_selector,
}
use cute_pcap_mcp.Analyze.{AnalyzeInput, AnalyzeOutput}
use cute_pcap_mcp.Analyze.State.{Env}
use cute_pcap_mcp.Analyze.Findings.{finding}
use cute_pcap_mcp.Analyze.Pipeline.{analyze_artifact}
use cute_pcap_mcp.Handlers.{
  Reply, Served, refused, answered, inspected, serve, analyze_error_output, persist,
}

-- `explainOutput`; a call that fails has no selector.
pub record ExplainOutput (F : Type 0) : Type 0 where
  pub analysis : AnalyzeOutput F
  pub selector : Option ResolvedSelector

abbrev resolution_text : Resolution → Bytes
resolution_text by_five_tuple = codes "five_tuple"
resolution_text by_zeek_uid = codes "zeek_uid"
resolution_text by_frame_number = codes "frame_number"

module _ {F Addr : Type 0} (env : Env F Addr) (sha256_hex quote : Bytes → Bytes)
    (cfg : Config) where
  abbrev pub explain_error : Option ArtifactInfo → ToolError → ExplainOutput F
  explain_error a e = record {
    analysis = analyze_error_output env sha256_hex cfg a e;
    selector = none;
  }

  abbrev or_off : Option Bool → Bool
  or_off none = false
  or_off (some b) = b

  -- The analysis that is made for a selector.
  abbrev pub scoped_input : ArtifactInfo → ExplainInput → ResolvedSelector → AnalyzeInput
  scoped_input source input s = record {
    path = print_path source.path;
    include_capinfos = some true;
    include_tshark = some true;
    include_zeek = some true;
    include_ascii = some (or_off input.include_ascii);
    redact_secrets = input.redact_secrets;
    display_filter = s.display_filter;
    min_string_length = pos 0;
    max_ascii_strings = pos 0;
    max_ascii_bytes = pos 0;
    max_packet_rows = input.max_packet_rows;
    max_zeek_records_per_log = pos 0;
    write_artifacts = input.write_artifacts;
    expected = record { sha256 = []; size_bytes = none };
    analysis_profile = input.analysis_profile;
    f5_context = input.f5_context;
    tls_keylog_path = input.tls_keylog_path;
  }

  abbrev pub scoped : ResolvedSelector → Finding
  scoped s = finding (codes "connection_evidence_scoped") info (
      codes "Connection evidence scoped via "
      ++ resolution_text s.resolution
      ++ codes "; tshark display_filter = "
      ++ quote s.display_filter
      ++ codes ".")

  abbrev pub explained :
      ArtifactInfo → ExplainInput → Result ResolvedSelector → Reply (ExplainOutput F)
  explained source input (failed e) = refused (explain_error (some source) (classify e))
  explained source input (ok s) =
      let out = analyze_artifact env cfg (scoped_input source input s) source in
      answered (record {
        analysis = record out { findings = out.findings ++ scoped s ∷ [] };
        selector = some s;
      })

  -- The run of Zeek that a UID is looked up in, without a key log.
  abbrev pub zeek_report : ArtifactInfo → Result (ZeekReport × Bool)
  zeek_report source =
      run_zeek env.machine (λ s. (env.redact s).0) cfg cfg.analysis.max_zeek_records_per_log
        source.path none

  -- `explainConnection`, with the mark that the handler puts on its error.
  unfoldable pub explain_connection : ArtifactInfo → ExplainInput → Reply (ExplainOutput F)
  unfolding resolve_selector run_zeek analyze_artifact classify print_path
  explain_connection source input = explained source input (
      resolve_selector env.net quote env.program env.timeout env.parse_float (zeek_report source)
        source input)

  module _ (write : AnalyzeOutput F → Disk → Disk × Result (List OutputArtifact)) where
    abbrev pub persisted :
        ExplainInput → Disk → Reply (ExplainOutput F) → Reply (ExplainOutput F) × Disk
    persisted input disk r =
        let (out, after) =
          persist env sha256_hex cfg write input.write_artifacts r.output.analysis disk in
        if r.is_error then (r, disk) else (answered (record r.output { analysis = out }), after)

    abbrev pub explain_work : ExplainInput → ArtifactInfo → Disk → Reply (ExplainOutput F) × Disk
    explain_work input source disk = persisted input disk (explain_connection source input)

    abbrev pub after_validation : Semaphore → Disk → Result ExplainInput → Served (ExplainOutput F)
    after_validation s disk (failed e) = record {
      reply = refused (explain_error none (classify e));
      sem = s;
      disk = disk;
    }
    after_validation s disk (ok input) =
        serve env sha256_hex cfg explain_error (explain_work input) s disk
          (inspected env sha256_hex cfg input.path input.expected)

    unfoldable pub explain_handler : ExplainInput → Semaphore → Disk → Served (ExplainOutput F)
    unfolding validate_explain_input inspected serve persist explain_connection
    explain_handler input s disk = after_validation s disk (validate_explain_input env.net input)
