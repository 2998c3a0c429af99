-- ===== src/Analyze/Decryption.antt =====
-- The status of decryption, and the analyzers on whose errors it depends.
use cute_pcap_mcp.Base.{
  Bool, true, false, ◌&&◌, ◌||◌, List, [], ◌∷◌, Option, none, some, ◌≡◌, refl, sym, ap, ◌∙◌,
  if◌then◌else◌, arith,
}
use mathlib.Core.Option.{none, some}
use mathlib.Core.Path.{subst}
use cute_pcap_mcp.Base.Text.{Bytes, codes, trim_space}
use cute_pcap_mcp.Errors.{Err, Result, ok, failed, ToolError, then_do}
use cute_pcap_mcp.Config.{Config}
use cute_pcap_mcp.Artifact.{ArtifactInfo}
use cute_pcap_mcp.Ascii.{Report}
use cute_pcap_mcp.Command.{Finding, run_tolerant, truncation_finding}
use cute_pcap_mcp.FilePaths.{FilePath}
use cute_pcap_mcp.Signals.Build.{Summary, build_summary}
use cute_pcap_mcp.Keylog.{
  Status, not_requested, unavailable, keylog_missing, keylog_invalid, attempted, succeeded,
  finalize, keylog_path_or_empty, keylog_tshark_args,
}
use cute_pcap_mcp.Tshark.{Ran, run_report}
use cute_pcap_mcp.Zeek.Report.{ZeekReport, run_zeek}
use cute_pcap_mcp.Analyze.{AnalyzeInput, unless_off, packet_row_limit, zeek_record_limit}
use cute_pcap_mcp.Analyze.State.{Env, State, is_active, keylog_of, add_truncation}
use cute_pcap_mcp.Analyze.Pipeline.{
  redacted, tshark_sections_of, with_capinfos, capinfos_call, capinfos_step, returned_error,
  nested_errors, with_tshark, tshark_step, with_summary, with_zeek, zeek_step, with_ascii,
  extracted, ascii_step, start, gathered, resolution, conclude, analyze_artifact,
}

or_assoc : (a b c : Bool) → ((a || b) || c) ≡ (a || (b || c))
or_assoc true b c = refl
or_assoc false b c = refl

or_false : (a : Bool) → (a || false) ≡ a
or_false true = refl
or_false false = refl

-- One state follows another: the artifact stays, and the mark of a failed key log is set where the flag is.
abbrev Follows : {F : Type 0} → State F → State F → Bool → Type 0
Follows s t b = (t.out.artifact ≡ s.out.artifact) × (t.keylog_failed ≡ (s.keylog_failed || b))

Follows-same : {F : Type 0} (s : State F) → Follows s s false
Follows-same s = (refl, sym (or_false s.keylog_failed))

Follows-trans :
    {F : Type 0} (r s t : State F) (a b : Bool)
    → Follows r s a
    → Follows s t b
    → Follows r t (a || b)
Follows-trans r s t a b (p, q) (u, v) =
    (u ∙ p, v ∙ ap (λ x. x || b) q ∙ or_assoc r.keylog_failed a b)

-- A step that may be left out.
Follows-if :
    {F : Type 0} (wanted : Bool) (s t : State F) (b : Bool)
    → Follows s t b
    → Follows s (if wanted then t else s) (wanted && b)
Follows-if true s t b h = h
Follows-if false s t b h = Follows-same s

Follows-truncation :
    {F : Type 0} (t : Bool) (f : Finding) (r s : State F) (b : Bool)
    → Follows r s b
    → Follows r (add_truncation t f s) b
Follows-truncation true f r s b h = h
Follows-truncation false f r s b h = h

abbrev pub is_error : Option Err → Bool
is_error none = false
is_error (some e) = true

abbrev pub has_errors : List ToolError → Bool
has_errors [] = false
has_errors (e ∷ es) = true

-- A report of tshark has an error, its own or one of its parts.
abbrev pub has_failed : Ran → Bool
has_failed r = is_error r.error || has_errors r.report.errors

abbrev pub is_failed : {A : Type 0} → Result A → Bool
is_failed (ok a) = false
is_failed (failed e) = true

flags :
    (c t z i active e es f : Bool)
    → ((((false || (c && false)) || (t && ((e && active) || (es && active))))
          || (z && (f && active)))
        || (i && false))
      ≡ (active && ((t && (e || es)) || (z && f)))
flags c t z i true e es f = ground arith
flags c t z i false e es f = ground arith

status-finalize :
    (s : Status) (detail : Bytes) (b : Bool) (path : Option FilePath)
    → (finalize s detail (is_active s && b) path).status
      ≡ (if is_active s && b then Status.failed else s)
unfolding finalize
status-finalize not_requested detail b path = refl
status-finalize unavailable detail b path = refl
status-finalize keylog_missing detail b path = refl
status-finalize keylog_invalid detail b path = refl
status-finalize attempted detail true path = refl
status-finalize attempted detail false path = refl
status-finalize succeeded detail b path = refl
status-finalize Status.failed detail b path = refl

module _ {F Addr : Type 0} (env : Env F Addr) (cfg : Config) (input : AnalyzeInput) where
  Follows-capinfos :
      (out stderr : Bytes) (t : Bool) (e : Option Err) (s : State F)
      → Follows s (with_capinfos env cfg input out stderr t e s) false
  Follows-capinfos out stderr t (some e) s = Follows-same s
  Follows-capinfos out stderr true none s = Follows-same s
  Follows-capinfos out stderr false none s = Follows-same s

  Follows-capinfos_step :
      (s : State F)
      → Follows s (capinfos_step env cfg input s) (unless_off input.include_capinfos && false)
  unfolding capinfos_step
  Follows-capinfos_step s =
      let r =
        run_tolerant env.program env.timeout cfg.analysis.max_stdout_bytes
          (capinfos_call env cfg input s) in
      Follows-if (unless_off input.include_capinfos) s
        (with_capinfos env cfg input r.output.stdout r.output.stderr r.truncated r.error s) false
        (Follows-capinfos r.output.stdout r.output.stderr r.truncated r.error s)

  Follows-returned :
      (active : Bool) (e : Option Err) (s : State F)
      → Follows s (returned_error env cfg input active e s) (is_error e && active)
  Follows-returned active none s = Follows-same s
  Follows-returned active (some e) s = (refl, refl)

  Follows-nested :
      (active : Bool) (es : List ToolError) (s : State F)
      → Follows s (nested_errors env cfg input active es s) (has_errors es && active)
  Follows-nested active [] s = Follows-same s
  Follows-nested active (e ∷ es) s = (refl, refl)

  Follows-tshark :
      (active : Bool) (r : Ran) (s : State F)
      → Follows s
          (with_tshark env cfg input active r s)
          ((is_error r.error && active) || (has_errors r.report.errors && active))
  Follows-tshark active r s =
      let returned = returned_error env cfg input active r.error s in
      let shown = tshark_sections_of env cfg input r.report returned in
      let nested = nested_errors env cfg input active r.report.errors shown in
      Follows-truncation r.truncated
        (truncation_finding (codes "tshark")
          (codes "input pcap appears to have been cut short in the middle of a packet"))
        s nested ((is_error r.error && active) || (has_errors r.report.errors && active))
        (Follows-trans s shown nested (is_error r.error && active)
          (has_errors r.report.errors && active) (Follows-returned active r.error s)
          (Follows-nested active r.report.errors shown))

  Follows-zeek :
      (active : Bool) (r : Result (ZeekReport × Bool)) (s : State F)
      → Follows s (with_zeek env cfg input active r s) (is_failed r && active)
  unfolding build_summary
  Follows-zeek active (failed e) s = (refl, refl)
  Follows-zeek active (ok (r, truncated)) s =
      same_summary truncated (truncation_finding (codes "zeek") r.warnings)
        (build_summary env.redact env.parse_float r.logs) r
    where
      same_summary :
          (t : Bool) (f : Finding) (m : Option Summary) (r : ZeekReport)
          → Follows s
              (add_truncation t f (record s {
                out = record (with_summary env cfg input m s.out) {
                  zeek_logs = r.logs;
                  zeek_warnings = r.warnings;
                };
                summary = m;
              }))
              false
      same_summary true f none r = Follows-same s
      same_summary true f (some m) r = Follows-same s
      same_summary false f none r = Follows-same s
      same_summary false f (some m) r = Follows-same s

  Follows-ascii : (r : Result Report) (s : State F) → Follows s (with_ascii env cfg input r s) false
  Follows-ascii (failed e) s = Follows-same s
  Follows-ascii (ok r) s = Follows-same s

  Follows-ascii_step :
      (s : State F)
      → Follows s (ascii_step env cfg input s) (unless_off input.include_ascii && false)
  unfolding ascii_step
  Follows-ascii_step s =
      let r = then_do (env.reads s.out.artifact.path) (extracted env cfg input) in
      Follows-if (unless_off input.include_ascii) s (with_ascii env cfg input r s) false
        (Follows-ascii r s)

  -- The run of tshark, and that of Zeek, on an artifact, with the key log that was resolved.
  abbrev pub tshark_of : ArtifactInfo → Ran
  tshark_of artifact =
      run_report env.program env.timeout cfg.analysis.max_stdout_bytes env.read_csv
        (redacted env cfg input) artifact.path (packet_row_limit cfg input)
        (trim_space input.display_filter)
        (keylog_tshark_args (keylog_of (resolution env cfg input)))

  abbrev pub zeek_run : ArtifactInfo → Result (ZeekReport × Bool)
  zeek_run artifact =
      run_zeek env.machine (redacted env cfg input) cfg (zeek_record_limit cfg input) artifact.path
        (keylog_of (resolution env cfg input))

  -- An analyzer that had the key log failed: tshark or Zeek, where it was wanted.
  abbrev pub keylog_broken : ArtifactInfo → Bool
  keylog_broken artifact =
      is_active (resolution env cfg input).status
      && ((unless_off input.include_tshark && has_failed (tshark_of artifact))
          || (unless_off input.include_zeek && is_failed (zeek_run artifact)))

  Follows-tshark_step :
      (s : State F) (a : ArtifactInfo)
      → s.out.artifact ≡ a
      → Follows s (tshark_step env cfg input (resolution env cfg input) s) (
          unless_off input.include_tshark
          && ((is_error (tshark_of a).error && is_active (resolution env cfg input).status)
              || (has_errors (tshark_of a).report.errors
                  && is_active (resolution env cfg input).status)))
  unfolding tshark_step
  Follows-tshark_step s a e =
      let active = is_active (resolution env cfg input).status in
      subst
        (λ x. Follows s (tshark_step env cfg input (resolution env cfg input) s) (
          unless_off input.include_tshark
          && ((is_error (tshark_of x).error && active)
              || (has_errors (tshark_of x).report.errors && active))))
        e
        (Follows-if (unless_off input.include_tshark) s
          (with_tshark env cfg input active (tshark_of s.out.artifact) s)
          ((is_error (tshark_of s.out.artifact).error && active)
            || (has_errors (tshark_of s.out.artifact).report.errors && active))
          (Follows-tshark active (tshark_of s.out.artifact) s))

  Follows-zeek_step :
      (s : State F) (a : ArtifactInfo)
      → s.out.artifact ≡ a
      → Follows s (zeek_step env cfg input (resolution env cfg input) s) (
          unless_off input.include_zeek
          && (is_failed (zeek_run a) && is_active (resolution env cfg input).status))
  unfolding zeek_step
  Follows-zeek_step s a e =
      let active = is_active (resolution env cfg input).status in
      subst
        (λ x.
          Follows s (zeek_step env cfg input (resolution env cfg input) s)
            (unless_off input.include_zeek && (is_failed (zeek_run x) && active)))
        e
        (Follows-if (unless_off input.include_zeek) s
          (with_zeek env cfg input active (zeek_run s.out.artifact) s)
          (is_failed (zeek_run s.out.artifact) && active)
          (Follows-zeek active (zeek_run s.out.artifact) s))

  gathered-keylog_failed :
      (artifact : ArtifactInfo)
      → (gathered env cfg input artifact).keylog_failed ≡ keylog_broken artifact
  gathered-keylog_failed artifact =
      let k = resolution env cfg input in
      let zero_ = start env cfg input artifact in
      let one = capinfos_step env cfg input zero_ in
      let two = tshark_step env cfg input k one in
      let three = zeek_step env cfg input k two in
      let (a, p) = Follows-capinfos_step zero_ in
      let (b, q) = Follows-tshark_step one artifact a in
      let (c, r) = Follows-zeek_step two artifact (b ∙ a) in
      let (d, t) = Follows-ascii_step three in
      t
      ∙ ap (λ x. x || (unless_off input.include_ascii && false))
          (r
            ∙ ap
                (λ x.
                  x
                  || (unless_off input.include_zeek
                      && (is_failed (zeek_run artifact) && is_active k.status)))
                (q
                  ∙ ap
                      (λ x.
                        x
                        || (unless_off input.include_tshark
                            && ((is_error (tshark_of artifact).error && is_active k.status)
                                || (has_errors (tshark_of artifact).report.errors
                                    && is_active k.status))))
                      p))
      ∙ flags (unless_off input.include_capinfos) (unless_off input.include_tshark)
          (unless_off input.include_zeek) (unless_off input.include_ascii) (is_active k.status)
          (is_error (tshark_of artifact).error) (has_errors (tshark_of artifact).report.errors)
          (is_failed (zeek_run artifact))

  -- The status of decryption is failed where the key log is in use and tshark, if it was wanted, had an error
  -- of its own or of one of its parts, or Zeek, if it was wanted, failed; otherwise, whatever the errors of
  -- capinfos and of the printable strings, it is that of the resolution.
  pub analyze_artifact-keylog :
      (artifact : ArtifactInfo)
      → (analyze_artifact env cfg input artifact).tls_decryption.status
        ≡ (if keylog_broken artifact then Status.failed else (resolution env cfg input).status)
  unfolding analyze_artifact conclude
  analyze_artifact-keylog artifact =
      let k = resolution env cfg input in
      ap (λ b. (finalize k.status k.detail b (keylog_path_or_empty k.status k.path)).status)
        (gathered-keylog_failed artifact)
      ∙ status-finalize k.status k.detail
          ((unless_off input.include_tshark && has_failed (tshark_of artifact))
            || (unless_off input.include_zeek && is_failed (zeek_run artifact)))
          (keylog_path_or_empty k.status k.path)
