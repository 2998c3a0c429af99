-- ===== src/Handlers.antt =====
-- The handlers of the tools: `inspectHandler`, `analyzeHandler`, `analyzeErrorOutput` and that of
-- summarize_pcap in `registerTools`, of internal/pcap/server.go. Logging is left out. A call has the semaphore of the
-- server and the disk of the workspace, and gives them back.
pub mod Explained
pub mod Filtered
pub mod Laws
mod Tests
use cute_pcap_mcp.Base.{
  ℕ, zero, suc, ◌+◌, ◌-◌, ◌*◌, ◌%◌, ◌/◌, ◌<◌, ◌≤◌, Bool, true, false, not, ◌&&◌, ◌||◌, List, [],
  ◌∷◌, ◌++◌, map, Option, none, some, ◌≡◌, ◌≢◌, refl, sym, ap, ◌∙◌, ◌↔◌, ◌⊎◌, inl, inr, ltb, leb,
  ◌==◌, if◌then◌else◌, All, All-append, arith, Bool-cases, Option-cases, some_eq, length, any, all,
  take, drop, get_elem?, length-append, length-take, not-true,
}
use mathlib.Core.Option.{none, some}
use cute_pcap_mcp.Base.Text.{Bytes, codes, trim_space}
use cute_pcap_mcp.Base.Text.Atoi.{print_int}
use cute_pcap_mcp.Base.Int.{ℤ, pos, lt_ℤ}
use cute_pcap_mcp.Errors.{Err, Result, ok, failed, then_do, ToolError, classify}
use cute_pcap_mcp.FilePaths.{FilePath}
use cute_pcap_mcp.Config.{Config}
use cute_pcap_mcp.Artifact.{Lookup, ArtifactInfo, Expectations, inspect_artifact}
use cute_pcap_mcp.Command.{Severity, info, warning, Finding, truncation_finding}
use cute_pcap_mcp.Diagnose.Input.{validate_expectations}
use cute_pcap_mcp.Server.{Semaphore, acquire_slot, release_slot}
use cute_pcap_mcp.Outputs.{Moment, File, Disk, OutputArtifact}
use cute_pcap_mcp.Filter.{FilterInput, FilterRun, System, validate_filter_input, run_filter}
use cute_pcap_mcp.Tshark.{run_tshark}
use cute_pcap_mcp.Analyze.{AnalyzeInput, AnalyzeOutput, unless_off, validate_analyze_input}
use cute_pcap_mcp.Analyze.State.{Env, empty_output}
use cute_pcap_mcp.Analyze.Findings.{finding}
use cute_pcap_mcp.Analyze.Pipeline.{analyze_artifact}
use cute_pcap_mcp.Analyze.Output.{write_analysis_artifacts}

-- A result of a tool with its mark of an error.
pub record Reply (A : Type 0) : Type 0 where
  pub is_error : Bool
  pub output : A

pub record Served (A : Type 0) : Type 0 where
  pub reply : Reply A
  pub sem : Semaphore
  pub disk : Disk

-- `summarizeOutput`; the name of the analyzer is left out.
pub record SummarizeOutput : Type 0 where
  pub artifact : ArtifactInfo
  pub protocol_report : Bytes
  pub findings : List Finding
  pub error : Option ToolError

abbrev pub refused : {A : Type 0} → A → Reply A
refused a = record { is_error = true; output = a }

abbrev pub answered : {A : Type 0} → A → Reply A
answered a = record { is_error = false; output = a }

abbrev checked : {A : Type 0} → Option Err → Result A → Result A
checked none next = next
checked (some e) next = failed e

module _ {F Addr : Type 0} (env : Env F Addr) (sha256_hex : Bytes → Bytes) (cfg : Config) where
  -- The checks before a slot is taken: the input, what is expected of the file, and the file.
  unfoldable pub inspected : Bytes → Expectations → Result ArtifactInfo
  unfolding validate_expectations inspect_artifact
  inspected path expected = checked (validate_expectations expected.sha256 expected.size_bytes) (
      inspect_artifact env.absolute env.eval_symlinks env.stat env.read sha256_hex path cfg
        expected)

  -- `inspectHandler`, which takes no slot.
  abbrev inspect_reply : Result ArtifactInfo → Reply (Option ArtifactInfo × Option ToolError)
  inspect_reply (failed e) = refused (none, some (classify e))
  inspect_reply (ok a) = answered (some a, none)

  unfoldable pub inspect_handler :
      Bytes → Expectations → Reply (Option ArtifactInfo × Option ToolError)
  unfolding inspected classify
  inspect_handler path expected = inspect_reply (inspected path expected)

  -- A call that works in a slot, which the deferred release gives back. The error of an earlier check has no
  -- artifact.
  module _ {A : Type 0} (fail : Option ArtifactInfo → ToolError → A)
      (work : ArtifactInfo → Disk → Reply A × Disk) where
    abbrev pub in_slot : ArtifactInfo → Semaphore → Disk → Result Semaphore → Served A
    in_slot a s disk (failed e) = record {
      reply = refused (fail (some a) (classify e));
      sem = s;
      disk = disk;
    }
    in_slot a s disk (ok taken) =
        let (reply, after) = work a disk in
        record { reply = reply; sem = release_slot taken; disk = after }

    unfoldable pub serve : Semaphore → Disk → Result ArtifactInfo → Served A
    unfolding acquire_slot release_slot classify
    serve s disk (failed e) = record {
      reply = refused (fail none (classify e));
      sem = s;
      disk = disk;
    }
    serve s disk (ok a) = in_slot a s disk (acquire_slot s)

  abbrev no_artifact : ArtifactInfo
  no_artifact = record { path = []; size_bytes = pos 0; sha256 = [] }

  abbrev pub artifact_or : Option ArtifactInfo → ArtifactInfo
  artifact_or none = no_artifact
  artifact_or (some a) = a

  -- `analyzeErrorOutput`
  abbrev pub analyze_error_output : Option ArtifactInfo → ToolError → AnalyzeOutput F
  analyze_error_output a e = record (empty_output (artifact_or a)) { error = some e }

  -- The artifacts of a call, unless they are turned off.
  module _ (write : AnalyzeOutput F → Disk → Disk × Result (List OutputArtifact)) where
    abbrev pub with_written :
        AnalyzeOutput F → Disk × Result (List OutputArtifact) → AnalyzeOutput F × Disk
    with_written out (disk, failed e) =
        (record out { errors = out.errors ++ classify e ∷ [] }, disk)
    with_written out (disk, ok written) =
        (record out { artifacts = out.artifacts ++ written }, disk)

    abbrev has_output_dir : Bool
    has_output_dir = elim cfg.workspace.output_dir [ none ↦ false | some d ↦ true ]

    unfoldable pub persist : Option Bool → AnalyzeOutput F → Disk → AnalyzeOutput F × Disk
    unfolding unless_off classify
    persist wanted out disk =
        if unless_off wanted && has_output_dir
        then with_written out (write out disk)
        else (out, disk)

    abbrev pub analyze_work : AnalyzeInput → ArtifactInfo → Disk → Reply (AnalyzeOutput F) × Disk
    analyze_work input a disk =
        let (out, after) = persist input.write_artifacts (analyze_artifact env cfg input a) disk in
        (answered out, after)

    -- `analyzeHandler`
    unfoldable pub analyze_handler : AnalyzeInput → Semaphore → Disk → Served (AnalyzeOutput F)
    unfolding validate_analyze_input inspected serve persist analyze_artifact then_do
    analyze_handler input s disk = serve analyze_error_output (analyze_work input) s disk (
        then_do (validate_analyze_input env.net input)
          (λ valid. inspected input.path input.expected))

  abbrev summarize_error : Option ArtifactInfo → ToolError → SummarizeOutput
  summarize_error a e = record {
    artifact = artifact_or a;
    protocol_report = [];
    findings = [];
    error = some e;
  }

  abbrev summary_generated : Finding
  summary_generated = finding (codes "summary_generated") info (
      codes
        "Generated protocol hierarchy summary with tshark; packet payload bytes are not returned.")

  abbrev cut_finding : Bool → List Finding
  cut_finding truncated =
      if truncated
      then truncation_finding (codes "tshark")
          (codes "input pcap appears to have been cut short in the middle of a packet")
        ∷ []
      else []

  abbrev summarized : ArtifactInfo → Result (Bytes × Bool) → Reply SummarizeOutput
  summarized a (failed e) = refused (summarize_error (some a) (classify e))
  summarized a (ok (out, truncated)) = answered (record {
    artifact = a;
    protocol_report = out;
    findings = summary_generated ∷ cut_finding truncated;
    error = none;
  })

  abbrev summarize_work : ArtifactInfo → Disk → Reply SummarizeOutput × Disk
  summarize_work a disk = (
    summarized a (
        run_tshark env.program env.timeout cfg.analysis.max_stdout_bytes env.read_csv
          (λ s. (env.redact s).0) a.path []),
    disk,
  )

  -- The handler of summarize_pcap.
  unfoldable pub summarize_handler :
      Bytes → Expectations → Semaphore → Disk → Served SummarizeOutput
  unfolding inspected serve run_tshark classify truncation_finding
  summarize_handler path expected s disk =
      serve summarize_error summarize_work s disk (inspected path expected)
