-- ===== src/Analyze.antt =====
-- The analysis of a capture: `analyzeInput`, `validateAnalyzeInput`, the options of a call and
-- `analyzeOutput`, of internal/pcap/analyzer.go and output.go. Pointers to Booleans are options; an empty
-- list or text stands for a section that is left out.
pub mod Findings
pub mod State
pub mod Pipeline
pub mod Covers
pub mod Partial
pub mod Markdown
pub mod Output
pub mod Laws
pub mod Decryption
pub mod Tests
use cute_pcap_mcp.Base.{
  ℕ, zero, suc, ◌+◌, ◌-◌, ◌*◌, ◌%◌, ◌/◌, ◌<◌, ◌≤◌, Bool, true, false, not, ◌&&◌, ◌||◌, List, [],
  ◌∷◌, ◌++◌, map, Option, none, some, ◌≡◌, ◌≢◌, refl, sym, ap, ◌∙◌, ◌↔◌, ◌⊎◌, inl, inr, ltb, leb,
  ◌==◌, if◌then◌else◌, All, All-append, arith, Bool-cases, Option-cases, some_eq, length, any, all,
  take, drop, get_elem?, length-append, length-take, not-true,
}
use mathlib.Core.Option.{none, some}
use cute_pcap_mcp.Base.Text.{Bytes, codes, contains_byte, is_empty}
use cute_pcap_mcp.Base.Int.{ℤ, pos, le_zero, lt_ℤ, eq_ℤ}
use cute_pcap_mcp.Errors.{
  Err, Result, ok, failed, require, validation, out_of_range, contains_nul, too_long,
  missing_field_error, ToolError,
}
use cute_pcap_mcp.Config.{Config}
use cute_pcap_mcp.Artifact.{ArtifactInfo, Expectations}
use cute_pcap_mcp.Ascii.{RawOptions, Report}
use cute_pcap_mcp.Command.{Finding}
use cute_pcap_mcp.Capinfos.{CaptureSummary}
use cute_pcap_mcp.Keylog.{DecryptionStatus}
use cute_pcap_mcp.Outputs.{OutputArtifact}
use cute_pcap_mcp.Tshark.{PacketSummary}
use cute_pcap_mcp.Zeek.{Log}
use cute_pcap_mcp.Signals.{DnsQuery, HttpRequest, TlsHandshake, ZeekEvent}
use cute_pcap_mcp.Signals.Health.{TcpHealth}
use cute_pcap_mcp.Profile.{Net, F5Context, validate_f5_context}
use cute_pcap_mcp.Profile.Section.{Profile}

pub record AnalyzeInput : Type 0 where
  pub path : Bytes
  pub include_capinfos : Option Bool
  pub include_tshark : Option Bool
  pub include_zeek : Option Bool
  pub include_ascii : Option Bool
  pub redact_secrets : Option Bool
  pub display_filter : Bytes
  pub min_string_length : ℤ
  pub max_ascii_strings : ℤ
  pub max_ascii_bytes : ℤ
  pub max_packet_rows : ℤ
  pub max_zeek_records_per_log : ℤ
  pub write_artifacts : Option Bool
  pub expected : Expectations
  pub analysis_profile : Bytes
  pub f5_context : Option F5Context
  pub tls_keylog_path : Bytes

-- `writeArtifacts`, `includeCapinfos` and the like: nil means yes.
unfoldable pub unless_off : Option Bool → Bool
unless_off none = true
unless_off (some b) = b

unfoldable pub bounded_override : ℤ → ℤ → ℤ
bounded_override requested configured =
    if le_zero requested || lt_ℤ configured requested then configured else requested

abbrev pub packet_row_limit : Config → AnalyzeInput → ℤ
packet_row_limit cfg input = bounded_override input.max_packet_rows cfg.analysis.max_packet_rows

abbrev pub zeek_record_limit : Config → AnalyzeInput → ℤ
zeek_record_limit cfg input =
    bounded_override input.max_zeek_records_per_log cfg.analysis.max_zeek_records_per_log

abbrev clamp_length : ℤ → ℤ
clamp_length n = if lt_ℤ n (pos 1) then pos 4 else if lt_ℤ (pos 1024) n then pos 1024 else n

-- `asciiOptions`
unfoldable pub ascii_options : Config → AnalyzeInput → RawOptions
unfolding bounded_override unless_off
ascii_options cfg input = record {
  min_length =
      clamp_length
        (if eq_ℤ input.min_string_length (pos 0) then pos 4 else input.min_string_length);
  max_strings = bounded_override input.max_ascii_strings cfg.analysis.max_ascii_strings;
  max_bytes = bounded_override input.max_ascii_bytes cfg.analysis.max_ascii_bytes;
  redact_secrets = unless_off input.redact_secrets;
}

abbrev valid_or : Option Err → Result (Unit {0})
valid_or none = ok tt
valid_or (some e) = failed e

-- `validateAnalyzeInput`
unfoldable pub validate_analyze_input :
    {Addr : Type 0} → Net Addr → AnalyzeInput → Result (Unit {0})
unfolding require missing_field_error contains_byte validate_f5_context
validate_analyze_input net input =
    require (not (is_empty input.path)) (missing_field_error (codes "path")) (
      require (not (contains_byte input.display_filter 0))
        (validation (codes "display_filter") contains_nul
          (codes "display_filter must not contain NUL bytes"))
        (require (leb (length input.display_filter) 4096)
          (validation (codes "display_filter") too_long
            (codes "display_filter must be 4096 bytes or less"))
          (require (not (lt_ℤ input.min_string_length (pos 0)))
            (validation (codes "min_string_length") out_of_range
              (codes "min_string_length must be non-negative"))
            (valid_or (validate_f5_context net input.f5_context)))))

-- `analyzeOutput`, for a type of floating-point numbers.
pub record AnalyzeOutput (F : Type 0) : Type 0 where
  pub artifact : ArtifactInfo
  pub capture_summary : Option (CaptureSummary F)
  pub protocols : Bytes
  pub conversations : List (Bytes × Bytes)
  pub packets : List PacketSummary
  pub dns : List DnsQuery
  pub http : List HttpRequest
  pub tls : List TlsHandshake
  pub tcp_health : Option TcpHealth
  pub notices : List ZeekEvent
  pub weird_events : List ZeekEvent
  pub zeek_logs : List Log
  pub ascii : Option Report
  pub tls_decryption : DecryptionStatus
  pub profile : Option Profile
  pub findings : List Finding
  pub artifacts : List OutputArtifact
  pub errors : List ToolError
  pub error : Option ToolError
  pub zeek_warnings : Bytes
