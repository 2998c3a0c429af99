-- ===== src/Analyze/Output.antt =====
-- The files of an analysis: `renderAnalysisJSON` and `writeAnalysisArtifacts` of
-- internal/pcap/artifacts.go. `marshal` is json.MarshalIndent.
use cute_pcap_mcp.Base.{Bool, List, [], ◌∷◌, ◌++◌, Option, none, some}
use mathlib.Core.Option.{none, some}
use cute_pcap_mcp.Base.Text.{Bytes, codes}
use cute_pcap_mcp.Errors.{Err, Result, ok, failed, wrapped, err_analyzer_failed}
use cute_pcap_mcp.FilePaths.{FilePath}
use cute_pcap_mcp.Config.{Config}
use cute_pcap_mcp.Artifact.{Lookup, found, not_exist, broken}
use cute_pcap_mcp.Outputs.{Moment, File, Disk, OutputArtifact, write_bodies}
use cute_pcap_mcp.Analyze.{AnalyzeOutput}
use cute_pcap_mcp.Analyze.Markdown.{render_markdown}

module _ {F : Type 0} (is_positive : F → Bool) (print_float : F → Bytes)
    (marshal : AnalyzeOutput F → Lookup Bytes) (prepare : FilePath → Option Bytes)
    (refusal : Bytes → Option Bytes) (sha256_hex : Bytes → Bytes)
    (write_error : File → Option Bytes) where
  abbrev marshal_error : Bytes → Err
  marshal_error e = wrapped err_analyzer_failed (codes "marshal analysis.json: " ++ e)

  abbrev ended : Lookup Bytes → Result Bytes
  ended (found body) = ok (body ++ b'\n' ∷ [])
  ended not_exist = failed (marshal_error [])
  ended (broken e) = failed (marshal_error e)

  -- `renderAnalysisJSON`
  unfoldable pub render_json : AnalyzeOutput F → Result Bytes
  render_json out = ended (marshal (record out { artifacts = [] }))

  abbrev after_json :
      Config
      → FilePath
      → AnalyzeOutput F
      → Moment
      → Disk
      → Result Bytes
      → Disk × Result (List OutputArtifact)
  after_json cfg root out now disk (failed e) = (disk, failed e)
  after_json cfg root out now disk (ok json) =
      write_bodies sha256_hex write_error root refusal cfg out.artifact.sha256 now json
        (render_markdown is_positive print_float out now) disk

  abbrev in_root :
      Config
      → AnalyzeOutput F
      → Moment
      → Disk
      → FilePath
      → Option Bytes
      → Disk × Result (List OutputArtifact)
  in_root cfg out now disk root (some e) =
      (disk, failed (wrapped err_analyzer_failed (codes "prepare workspace.output_dir: " ++ e)))
  in_root cfg out now disk root none = after_json cfg root out now disk (render_json out)

  abbrev in_workspace :
      Config
      → AnalyzeOutput F
      → Moment
      → Disk
      → Option FilePath
      → Disk × Result (List OutputArtifact)
  in_workspace cfg out now disk none =
      (disk, failed (wrapped err_analyzer_failed (codes "workspace.output_dir is not configured")))
  in_workspace cfg out now disk (some root) = in_root cfg out now disk root (prepare root)

  -- `writeAnalysisArtifacts`
  unfoldable pub write_analysis_artifacts :
      Config → AnalyzeOutput F → Moment → Disk → Disk × Result (List OutputArtifact)
  unfolding render_json render_markdown write_bodies
  write_analysis_artifacts cfg out now disk = in_workspace cfg out now disk cfg.workspace.output_dir
