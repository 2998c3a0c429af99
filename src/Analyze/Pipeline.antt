-- ===== src/Analyze/Pipeline.antt =====
-- The pipeline: `analyzeArtifact`, `applyAnalysisProfile` and `runCapinfos` of
-- internal/pcap/analyzer.go.
use cute_pcap_mcp.Base.{Bool, false, List, [], ◌∷◌, ◌++◌, Option, none, some, if◌then◌else◌}
use mathlib.Core.Option.{none, some}
use cute_pcap_mcp.Base.Text.{Bytes, codes, eq_bytes, trim_space, is_empty}
use cute_pcap_mcp.Errors.{Err, Result, ok, failed, then_do, other, ToolError, classify}
use cute_pcap_mcp.Config.{Config}
use cute_pcap_mcp.Artifact.{ArtifactInfo, print_path}
use cute_pcap_mcp.Ascii.{Reads, Report, extract}
use cute_pcap_mcp.Command.{Call, info, warning, Finding, run_tolerant, truncation_finding}
use cute_pcap_mcp.Capinfos.{capture_summary}
use cute_pcap_mcp.Keylog.{
  Resolution, resolve_keylog, finalize, keylog_path_or_empty, keylog_tshark_args,
}
use cute_pcap_mcp.Tshark.{TsharkReport, Ran, run_report}
use cute_pcap_mcp.Zeek.Report.{ZeekReport, run_zeek}
use cute_pcap_mcp.Signals.Build.{Summary, build_summary}
use cute_pcap_mcp.Signals.Health.{build_tcp_health}
use cute_pcap_mcp.Profile.Section.{Profile, profile_name, build_f5_profile}
use cute_pcap_mcp.Analyze.{
  AnalyzeInput, AnalyzeOutput, unless_off, packet_row_limit, zeek_record_limit, ascii_options,
}
use cute_pcap_mcp.Analyze.Findings.{
  finding, has_non_empty_conversations, build_findings, distinct_warnings,
}
use cute_pcap_mcp.Analyze.State.{
  Env, State, empty_output, is_active, keylog_of, add_errors, add_truncation, keylog_error,
}

module _ {F Addr : Type 0} (env : Env F Addr) (cfg : Config) (input : AnalyzeInput) where
  abbrev pub redacted : Bytes → Bytes
  redacted s = (env.redact s).0

  abbrev pub with_capinfos : Bytes → Bytes → Bool → Option Err → State F → State F
  with_capinfos out stderr truncated (some e) s = add_errors (classify e ∷ []) s
  with_capinfos out stderr truncated none s =
      add_truncation truncated (truncation_finding (codes "capinfos") stderr) (record s {
        out = record s.out {
          capture_summary =
              capture_summary env.zero_float env.to_float env.parse_float out s.out.artifact;
        };
      })

  abbrev pub capinfos_call : State F → Call
  capinfos_call s = record {
    name = codes "capinfos";
    args = print_path s.out.artifact.path ∷ [];
    env = [];
  }

  unfoldable pub capinfos_step : State F → State F
  unfolding unless_off run_tolerant classify capture_summary truncation_finding print_path
  capinfos_step s =
      let r =
        run_tolerant env.program env.timeout cfg.analysis.max_stdout_bytes (capinfos_call s) in
      let next = with_capinfos r.output.stdout r.output.stderr r.truncated r.error s in
      if unless_off input.include_capinfos then next else s

  abbrev pub returned_error : Bool → Option Err → State F → State F
  returned_error active none s = s
  returned_error active (some e) s = keylog_error active (add_errors (classify e ∷ []) s)

  abbrev pub nested_errors : Bool → List ToolError → State F → State F
  nested_errors active [] s = s
  nested_errors active (e ∷ es) s = keylog_error active (add_errors (e ∷ es) s)

  abbrev pub tshark_sections_of : TsharkReport → State F → State F
  tshark_sections_of r s = record s {
    out = record s.out {
      protocols = r.protocol_hierarchy;
      conversations = if has_non_empty_conversations r.conversations then r.conversations else [];
      packets = r.packets;
    };
  }

  abbrev pub with_tshark : Bool → Ran → State F → State F
  with_tshark active r s =
      add_truncation r.truncated
        (truncation_finding (codes "tshark")
          (codes "input pcap appears to have been cut short in the middle of a packet"))
        (nested_errors active r.report.errors
          (tshark_sections_of r.report (returned_error active r.error s)))

  unfoldable pub tshark_step : Resolution → State F → State F
  unfolding unless_off run_report classify truncation_finding trim_space keylog_tshark_args
      has_non_empty_conversations
  tshark_step k s =
      let next =
        with_tshark (is_active k.status)
          (run_report env.program env.timeout cfg.analysis.max_stdout_bytes env.read_csv redacted
            s.out.artifact.path (packet_row_limit cfg input) (trim_space input.display_filter)
            (keylog_tshark_args (keylog_of k)))
          s in
      if unless_off input.include_tshark then next else s

  abbrev pub with_summary : Option Summary → AnalyzeOutput F → AnalyzeOutput F
  with_summary none out = out
  with_summary (some m) out = record out {
    dns = m.dns_queries;
    http = m.http_requests;
    tls = m.tls_handshakes;
    notices = m.notices;
    weird_events = m.weird_events;
    tcp_health = build_tcp_health (some m);
  }

  abbrev pub with_zeek : Bool → Result (ZeekReport × Bool) → State F → State F
  with_zeek active (failed e) s = keylog_error active (add_errors (classify e ∷ []) s)
  with_zeek active (ok (r, truncated)) s =
      let summary = build_summary env.redact env.parse_float r.logs in
      add_truncation truncated (truncation_finding (codes "zeek") r.warnings) (record s {
        out = record (with_summary summary s.out) {
          zeek_logs = r.logs;
          zeek_warnings = r.warnings;
        };
        summary = summary;
      })

  unfoldable pub zeek_step : Resolution → State F → State F
  unfolding unless_off run_zeek classify truncation_finding build_summary build_tcp_health
  zeek_step k s =
      let next =
        with_zeek (is_active k.status)
          (run_zeek env.machine redacted cfg (zeek_record_limit cfg input) s.out.artifact.path
            (keylog_of k))
          s in
      if unless_off input.include_zeek then next else s

  abbrev pub extracted : Reads → Result Report
  extracted reads = elim (extract env.redact (ascii_options cfg input) reads) [
    | none ↦ failed (other env.read_error)
    | some r ↦ ok r
  ]

  abbrev pub with_ascii : Result Report → State F → State F
  with_ascii (failed e) s = add_errors (classify e ∷ []) s
  with_ascii (ok r) s = record s { out = record s.out { ascii = some r } }

  unfoldable pub ascii_step : State F → State F
  unfolding unless_off extract ascii_options then_do classify
  ascii_step s =
      let next = with_ascii (then_do (env.reads s.out.artifact.path) extracted) s in
      if unless_off input.include_ascii then next else s

  abbrev pub with_profile :
      Option Profile → Bytes → AnalyzeOutput F → AnalyzeOutput F × List Finding
  with_profile none name out = (out, [])
  with_profile (some p) name out = (
    record out { profile = some p },
    finding (codes "analysis_profile_applied") info
          (codes "Applied analysis_profile=" ++ name ++ codes ".")
        ∷ [],
  )

  -- `applyAnalysisProfile`
  unfoldable pub apply_profile :
      AnalyzeOutput F → Option Summary → Bytes → AnalyzeOutput F × List Finding
  unfolding eq_bytes build_f5_profile
  apply_profile out summary name =
      let built =
        with_profile
          (build_f5_profile env.net out.tcp_health out.tls out.http summary input.f5_context) name
          out in
      if eq_bytes name profile_name then built else (
        out,
        finding (codes "analysis_profile_unknown") warning (
              codes "analysis_profile="
              ++ name
              ++ codes
                  " is not registered; generic evidence was returned without profile enrichment.")
            ∷ [],
      )

  unfoldable pub profile_step : AnalyzeOutput F → Option Summary → AnalyzeOutput F × List Finding
  unfolding apply_profile trim_space
  profile_step out summary =
      let name = trim_space input.analysis_profile in
      let applied = apply_profile out summary name in if is_empty name then (out, []) else applied

  abbrev pub findings_of_profile : Option Profile → List Finding
  findings_of_profile none = []
  findings_of_profile (some p) = p.findings

  -- The findings and the status of decryption, once the evidence is there.
  unfoldable pub conclude : Resolution → State F → AnalyzeOutput F
  unfolding profile_step build_findings distinct_warnings finalize keylog_path_or_empty
  conclude k s =
      let (out, extra) = profile_step s.out s.summary in
      record out {
        findings =
            build_findings out s.summary
            ++ extra
            ++ findings_of_profile out.profile
            ++ distinct_warnings [] s.truncations;
        tls_decryption =
            finalize k.status k.detail s.keylog_failed (keylog_path_or_empty k.status k.path);
      }

  abbrev pub start : ArtifactInfo → State F
  start artifact = record {
    out = empty_output artifact;
    truncations = [];
    keylog_failed = false;
    summary = none;
  }

  abbrev pub resolution : Resolution
  resolution =
      resolve_keylog env.absolute env.eval_symlinks env.stat env.read input.tls_keylog_path cfg

  -- The evidence of the four analyzers.
  abbrev pub gathered : ArtifactInfo → State F
  gathered artifact =
      ascii_step (zeek_step resolution (tshark_step resolution (capinfos_step (start artifact))))

  unfoldable pub analyze_artifact : ArtifactInfo → AnalyzeOutput F
  unfolding conclude ascii_step zeek_step tshark_step capinfos_step resolve_keylog
  analyze_artifact artifact = conclude resolution (gathered artifact)
