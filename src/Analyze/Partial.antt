-- ===== src/Analyze/Partial.antt =====
-- An analysis that has run has no error of the whole call, only errors of its sections.
use cute_pcap_mcp.Base.{Bool, true, false, List, [], ◌∷◌, Option, none, some, ◌≡◌, refl}
use mathlib.Core.Option.{none, some}
use cute_pcap_mcp.Base.Text.{Bytes, codes, eq_bytes, trim_space, is_empty}
use cute_pcap_mcp.Errors.{Err, Result, ok, failed, ToolError, then_do}
use cute_pcap_mcp.Config.{Config}
use cute_pcap_mcp.Artifact.{ArtifactInfo}
use cute_pcap_mcp.Ascii.{Report}
use cute_pcap_mcp.Command.{Finding, run_tolerant, truncation_finding}
use cute_pcap_mcp.Keylog.{Resolution}
use cute_pcap_mcp.Tshark.{Ran}
use cute_pcap_mcp.Signals.Build.{Summary, build_summary}
use cute_pcap_mcp.Zeek.Report.{ZeekReport}
use cute_pcap_mcp.Profile.Section.{Profile, profile_name, build_f5_profile}
use cute_pcap_mcp.Analyze.{AnalyzeInput, AnalyzeOutput, unless_off}
use cute_pcap_mcp.Analyze.State.{Env, State, is_active, add_truncation}
use cute_pcap_mcp.Analyze.Pipeline.{
  tshark_sections_of, with_capinfos, capinfos_call, capinfos_step, returned_error, nested_errors,
  with_tshark, tshark_step, with_summary, with_zeek, zeek_step, with_ascii, extracted, ascii_step,
  start, gathered, resolution, with_profile, apply_profile, profile_step, conclude,
  analyze_artifact,
}
use cute_pcap_mcp.Analyze.Laws.{if_both, report_of, zeek_of}

module _ {F Addr : Type 0} (env : Env F Addr) (cfg : Config) (input : AnalyzeInput) where
  abbrev IsRunning : State F → Type 0
  IsRunning s = s.out.error ≡ none

  truncation-IsRunning :
      (t : Bool) (f : Finding) (s : State F) → IsRunning s → IsRunning (add_truncation t f s)
  truncation-IsRunning true f s h = h
  truncation-IsRunning false f s h = h

  capinfos-IsRunning :
      (out stderr : Bytes) (t : Bool) (e : Option Err) (s : State F)
      → IsRunning s
      → IsRunning (with_capinfos env cfg input out stderr t e s)
  capinfos-IsRunning out stderr t (some e) s h = h
  capinfos-IsRunning out stderr true none s h = h
  capinfos-IsRunning out stderr false none s h = h

  capinfos_step-IsRunning : (s : State F) → IsRunning s → IsRunning (capinfos_step env cfg input s)
  unfolding capinfos_step
  capinfos_step-IsRunning s h =
      let r =
        run_tolerant env.program env.timeout cfg.analysis.max_stdout_bytes
          (capinfos_call env cfg input s) in
      if_both IsRunning (unless_off input.include_capinfos)
        (with_capinfos env cfg input r.output.stdout r.output.stderr r.truncated r.error s) s
        (capinfos-IsRunning r.output.stdout r.output.stderr r.truncated r.error s h) h

  returned-IsRunning :
      (active : Bool) (e : Option Err) (s : State F)
      → IsRunning s
      → IsRunning (returned_error env cfg input active e s)
  returned-IsRunning active none s h = h
  returned-IsRunning active (some e) s h = h

  nested-IsRunning :
      (active : Bool) (es : List ToolError) (s : State F)
      → IsRunning s
      → IsRunning (nested_errors env cfg input active es s)
  nested-IsRunning active [] s h = h
  nested-IsRunning active (e ∷ es) s h = h

  tshark-IsRunning :
      (active : Bool) (r : Ran) (s : State F)
      → IsRunning s
      → IsRunning (with_tshark env cfg input active r s)
  tshark-IsRunning active r s h =
      let shown =
        tshark_sections_of env cfg input r.report (returned_error env cfg input active r.error s) in
      truncation-IsRunning r.truncated
        (truncation_finding (codes "tshark")
          (codes "input pcap appears to have been cut short in the middle of a packet"))
        (nested_errors env cfg input active r.report.errors shown)
        (nested-IsRunning active r.report.errors shown (returned-IsRunning active r.error s h))

  tshark_step-IsRunning :
      (k : Resolution) (s : State F) → IsRunning s → IsRunning (tshark_step env cfg input k s)
  unfolding tshark_step
  tshark_step-IsRunning k s h =
      if_both IsRunning (unless_off input.include_tshark)
        (with_tshark env cfg input (is_active k.status) (report_of env cfg input k s) s) s
        (tshark-IsRunning (is_active k.status) (report_of env cfg input k s) s h) h

  summary_running :
      (summary : Option Summary) (out : AnalyzeOutput F)
      → out.error ≡ none
      → (with_summary env cfg input summary out).error ≡ none
  summary_running none out h = h
  summary_running (some s) out h = h

  zeek-IsRunning :
      (active : Bool) (r : Result (ZeekReport × Bool)) (s : State F)
      → IsRunning s
      → IsRunning (with_zeek env cfg input active r s)
  zeek-IsRunning active (failed e) s h = h
  zeek-IsRunning active (ok (r, true)) s h =
      summary_running (build_summary env.redact env.parse_float r.logs) s.out h
  zeek-IsRunning active (ok (r, false)) s h =
      summary_running (build_summary env.redact env.parse_float r.logs) s.out h

  zeek_step-IsRunning :
      (k : Resolution) (s : State F) → IsRunning s → IsRunning (zeek_step env cfg input k s)
  unfolding zeek_step
  zeek_step-IsRunning k s h =
      if_both IsRunning (unless_off input.include_zeek)
        (with_zeek env cfg input (is_active k.status) (zeek_of env cfg input k s) s) s
        (zeek-IsRunning (is_active k.status) (zeek_of env cfg input k s) s h) h

  ascii-IsRunning :
      (r : Result Report) (s : State F) → IsRunning s → IsRunning (with_ascii env cfg input r s)
  ascii-IsRunning (failed e) s h = h
  ascii-IsRunning (ok r) s h = h

  ascii_step-IsRunning : (s : State F) → IsRunning s → IsRunning (ascii_step env cfg input s)
  unfolding ascii_step
  ascii_step-IsRunning s h =
      let r = then_do (env.reads s.out.artifact.path) (extracted env cfg input) in
      if_both IsRunning (unless_off input.include_ascii) (with_ascii env cfg input r s) s
        (ascii-IsRunning r s h) h

  gathered-IsRunning : (artifact : ArtifactInfo) → IsRunning (gathered env cfg input artifact)
  gathered-IsRunning artifact =
      let k = resolution env cfg input in
      let one = capinfos_step env cfg input (start env cfg input artifact) in
      let two = tshark_step env cfg input k one in
      let three = zeek_step env cfg input k two in
      ascii_step-IsRunning three (
        zeek_step-IsRunning k two (
          tshark_step-IsRunning k one
            (capinfos_step-IsRunning (start env cfg input artifact) refl)))

  abbrev HasNoError : AnalyzeOutput F × List Finding → Type 0
  HasNoError r = r.0.error ≡ none

  with_profile_running :
      (p : Option Profile) (name : Bytes) (out : AnalyzeOutput F)
      → out.error ≡ none
      → HasNoError (with_profile env cfg input p name out)
  with_profile_running none name out h = h
  with_profile_running (some p) name out h = h

  apply_profile_running :
      (out : AnalyzeOutput F) (summary : Option Summary) (name : Bytes)
      → out.error ≡ none
      → HasNoError (apply_profile env cfg input out summary name)
  unfolding apply_profile
  apply_profile_running out summary name h =
      if_both HasNoError (eq_bytes name profile_name) _ _
        (with_profile_running
          (build_f5_profile env.net out.tcp_health out.tls out.http summary input.f5_context) name
          out h)
        h

  profile_step_running :
      (out : AnalyzeOutput F) (summary : Option Summary)
      → out.error ≡ none
      → HasNoError (profile_step env cfg input out summary)
  unfolding profile_step
  profile_step_running out summary h =
      if_both HasNoError (is_empty (trim_space input.analysis_profile)) (out, [])
        (apply_profile env cfg input out summary (trim_space input.analysis_profile)) h
        (apply_profile_running out summary (trim_space input.analysis_profile) h)

  pub error-analyze_artifact :
      (artifact : ArtifactInfo) → (analyze_artifact env cfg input artifact).error ≡ none
  unfolding analyze_artifact conclude
  error-analyze_artifact artifact =
      let s = gathered env cfg input artifact in
      profile_step_running s.out s.summary (gathered-IsRunning artifact)
