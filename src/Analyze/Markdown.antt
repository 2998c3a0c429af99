-- ===== src/Analyze/Markdown.antt =====
-- The summary of an analysis: `renderMarkdownSummary` of internal/pcap/artifacts.go. `print_float` is the
-- verb %.6f.
use cute_pcap_mcp.Base.{
  ℕ, zero, suc, Bool, not, List, [], ◌∷◌, ◌++◌, Option, none, some, if◌then◌else◌, length,
}
use mathlib.Core.Option.{none, some}
use cute_pcap_mcp.Base.Text.{Bytes, codes, is_empty}
use cute_pcap_mcp.Base.Text.Atoi.{print_int}
use cute_pcap_mcp.Base.Int.{pos, lt_ℤ}
use cute_pcap_mcp.Errors.{ToolError, token}
use cute_pcap_mcp.Artifact.{print_path}
use cute_pcap_mcp.Capinfos.{CaptureSummary}
use cute_pcap_mcp.Command.{Severity, info, warning, Finding}
use cute_pcap_mcp.Outputs.{Moment}
use cute_pcap_mcp.Signals.{DnsQuery, HttpRequest, TlsHandshake}
use cute_pcap_mcp.Signals.Health.{TcpHealth}
use cute_pcap_mcp.Analyze.{AnalyzeOutput}

abbrev line : Bytes → Bytes
line s = s ++ b'\n' ∷ []

abbrev line_if : Bool → Bytes → Bytes
line_if b s = if b then line s else []

-- The byte of a quotation of Markdown, and a text between two of them.
abbrev quoted : Bytes → Bytes
quoted s = 96 ∷ s ++ 96 ∷ []

abbrev number : ℕ → Bytes
number n = print_int (pos n)

-- The UTF-8 of an arrow and of an ellipsis.
abbrev arrow : Bytes
arrow = codes " " ++ 226 ∷ 134 ∷ 146 ∷ codes " "

abbrev ellipsis : Bytes
ellipsis = 226 ∷ 128 ∷ 166 ∷ []

-- The loop over the rows of a section, of which at most ten are shown.
abbrev first_rows : {A : Type 0} → (A → Bytes) → ℕ → List A → Bytes
first_rows row left [] = []
first_rows row zero (a ∷ rest) = line (
    codes "- _"
    ++ ellipsis
    ++ codes " "
    ++ number (length (a ∷ rest))
    ++ codes " more in analysis.json_")
first_rows row (suc left) (a ∷ rest) = line (row a) ++ first_rows row left rest

abbrev section : {A : Type 0} → Bytes → Bytes → (A → Bytes) → List A → Bytes
section title unit row [] = []
section title unit row (a ∷ rest) =
    line (
      codes "## "
      ++ title
      ++ codes " ("
      ++ number (length (a ∷ rest))
      ++ codes " "
      ++ unit
      ++ codes ")")
    ++ line []
    ++ first_rows row 10 (a ∷ rest)
    ++ line []

abbrev dns_row : DnsQuery → Bytes
dns_row q = codes "- " ++ quoted q.query ++ codes " " ++ q.type_ ++ arrow ++ q.response

abbrev http_row : HttpRequest → Bytes
http_row r =
    codes "- "
    ++ r.method
    ++ codes " "
    ++ quoted r.host
    ++ codes " "
    ++ quoted r.uri
    ++ arrow
    ++ print_int r.status_code

abbrev tls_row : TlsHandshake → Bytes
tls_row h =
    codes "- "
    ++ h.server_name
    ++ arrow
    ++ h.destination
    ++ codes " ("
    ++ h.version
    ++ codes ", "
    ++ h.cipher
    ++ codes ")"

abbrev health_text : Option TcpHealth → Bytes
health_text none = []
health_text (some h) =
    line (codes "## TCP health")
    ++ line []
    ++ line (
        codes "- Resets observed: "
        ++ number h.reset_count
        ++ codes " (originator: "
        ++ number h.by_originator
        ++ codes ", responder: "
        ++ number h.by_responder
        ++ codes ")")
    ++ line []

abbrev severity_text : Severity → Bytes
severity_text info = codes "info"
severity_text warning = codes "warning"

abbrev lines_of : {A : Type 0} → (A → Bytes) → List A → Bytes
lines_of row [] = []
lines_of row (a ∷ rest) = line (row a) ++ lines_of row rest

abbrev list_text : {A : Type 0} → Bytes → (A → Bytes) → List A → Bytes
list_text title row [] = []
list_text title row (a ∷ rest) =
    line (codes "## " ++ title) ++ line [] ++ lines_of row (a ∷ rest) ++ line []

abbrev finding_row : Finding → Bytes
finding_row f =
    codes "- **" ++ f.code ++ codes "** (" ++ severity_text f.severity ++ codes "): " ++ f.message

abbrev error_row : ToolError → Bytes
error_row e = codes "- **" ++ token e.kind ++ codes "**: " ++ e.message

abbrev limitations : Bytes
limitations =
    line (codes "## Limitations")
    ++ line []
    ++ line (codes "- Output is bounded by per-call and server-config limits.")
    ++ line (
        codes
          "- ASCII string redaction is best-effort; do not assume it caught every secret shape.")
    ++ line (
        codes "- This summary is for human review; the full evidence is in "
        ++ quoted (codes "analysis.json")
        ++ codes ".")

module _ {F : Type 0} (is_positive : F → Bool) (print_float : F → Bytes) where
  abbrev capture_text : Option (CaptureSummary F) → Bytes
  capture_text none = []
  capture_text (some c) =
      line (codes "## Capture summary")
      ++ line []
      ++ line_if (lt_ℤ (pos 0) c.packet_count) (codes "- Packets: " ++ print_int c.packet_count)
      ++ line_if (is_positive c.duration_seconds)
          (codes "- Duration: " ++ print_float c.duration_seconds ++ codes "s")
      ++ line_if (not (is_empty c.start_time)) (codes "- First packet: " ++ c.start_time)
      ++ line_if (not (is_empty c.end_time)) (codes "- Last packet: " ++ c.end_time)
      ++ line_if (not (is_empty c.file_type)) (codes "- File type: " ++ c.file_type)
      ++ line []

  abbrev fence : Bytes
  fence = 96 ∷ 96 ∷ 96 ∷ []

  abbrev protocols_text : Bytes → Bytes
  protocols_text hierarchy =
      if is_empty hierarchy
      then []
      else line (codes "## Protocols")
        ++ line []
        ++ line fence
        ++ hierarchy
        ++ line fence
        ++ line []

  -- `renderMarkdownSummary`
  unfoldable pub render_markdown : AnalyzeOutput F → Moment → Bytes
  unfolding print_int print_path token
  render_markdown out now =
      line (codes "# PCAP Analysis Summary")
      ++ line []
      ++ line (codes "- Generated: " ++ now.rfc3339)
      ++ line (codes "- Schema version: 1.1.0")
      ++ line (codes "- Source pcap: " ++ quoted (print_path out.artifact.path))
      ++ line (codes "- SHA-256: " ++ quoted out.artifact.sha256)
      ++ line (codes "- Size: " ++ print_int out.artifact.size_bytes ++ codes " bytes")
      ++ line []
      ++ capture_text out.capture_summary
      ++ protocols_text out.protocols
      ++ section (codes "DNS") (codes "queries") dns_row out.dns
      ++ section (codes "HTTP") (codes "requests") http_row out.http
      ++ section (codes "TLS") (codes "handshakes") tls_row out.tls
      ++ health_text out.tcp_health
      ++ list_text (codes "Findings") finding_row out.findings
      ++ list_text (codes "Per-section errors") error_row out.errors
      ++ limitations
