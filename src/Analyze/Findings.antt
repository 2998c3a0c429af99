-- ===== src/Analyze/Findings.antt =====
-- The findings of an analysis: `buildFindings`, `tsharkSectionsAvailable` and `hasNonEmptyConversations`
-- of internal/pcap/analyzer.go, and `summaryFindings` of internal/pcap/signals.go.
use cute_pcap_mcp.Base.{
  ℕ, Bool, true, false, not, ◌||◌, List, [], ◌∷◌, ◌++◌, Option, none, some, ltb, if◌then◌else◌,
  length,
}
use mathlib.Core.Option.{none, some}
use cute_pcap_mcp.Base.Text.{Bytes, codes, is_empty, mentions}
use cute_pcap_mcp.Base.Text.Atoi.{print_int}
use cute_pcap_mcp.Base.Int.{pos}
use cute_pcap_mcp.Errors.{ToolError, token, reason_token, Reason}
use cute_pcap_mcp.Ascii.{Report}
use cute_pcap_mcp.Command.{Severity, info, warning, Finding}
use cute_pcap_mcp.Signals.Build.{Summary, Signals}
use cute_pcap_mcp.Zeek.{Log}
use cute_pcap_mcp.Analyze.{AnalyzeOutput}

abbrev pub finding : Bytes → Severity → Bytes → Finding
finding code severity message = record { code = code; severity = severity; message = message }

abbrev counted : ℕ → Bytes → Severity → Bytes → Bytes → List Finding
counted n code severity before after =
    if ltb 0 n then finding code severity (before ++ print_int (pos n) ++ after) ∷ [] else []

unfoldable pub signal_findings : Signals → List Finding
unfolding print_int
signal_findings s =
    counted s.notices (codes "zeek_notices_present") warning (codes "Zeek emitted ")
      (codes " notice records in the bounded output.")
    ++ counted s.weird_events (codes "zeek_weird_events_present") warning (codes "Zeek emitted ")
        (codes " weird-event records in the bounded output.")
    ++ counted s.http_error_statuses (codes "http_error_statuses_present") warning
        (codes "Observed ")
        (codes " HTTP responses with status code 400 or greater in the bounded output.")
    ++ counted s.dns_rejections (codes "dns_rejections_present") info (codes "Observed ")
        (codes " DNS queries with non-success response codes in the bounded output.")
    ++ counted s.tcp_resets (codes "tcp_resets_present") warning (codes "Observed ")
        (codes " connections with reset-like Zeek connection states or history markers.")

-- `summaryFindings`
abbrev pub summary_findings : Option Summary → List Finding
summary_findings none = []
summary_findings (some s) = signal_findings s.signals

unfoldable pub has_non_empty_conversations : List (Bytes × Bytes) → Bool
has_non_empty_conversations [] = false
has_non_empty_conversations ((conv, table) ∷ cs) =
    not (is_empty table) || has_non_empty_conversations cs

abbrev section_if : Bool → Bytes → List Bytes
section_if b name = if b then name ∷ [] else []

abbrev is_nil {ℓ} : {A : Type ℓ} → List A → Bool
is_nil [] = true
is_nil (x ∷ xs) = false

unfoldable pub tshark_sections : {F : Type 0} → AnalyzeOutput F → List Bytes
unfolding has_non_empty_conversations
tshark_sections out =
    section_if (not (is_empty out.protocols)) (codes "protocol hierarchy")
    ++ section_if (has_non_empty_conversations out.conversations) (codes "conversation tables")
    ++ section_if (not (is_nil out.packets)) (codes "packet summaries")

-- strings.Join with ", "
abbrev joined : List Bytes → Bytes
joined [] = []
joined (w ∷ []) = w
joined (w ∷ v ∷ vs) = w ++ codes ", " ++ joined (v ∷ vs)

abbrev tshark_findings : List Bytes → List Finding
tshark_findings [] = []
tshark_findings (s ∷ ss) =
    finding (codes "tshark_analysis_available") info
      (codes "tshark evidence is available for: " ++ joined (s ∷ ss) ++ codes ".")
    ∷ []

abbrev zeek_findings : List Log → List Finding
zeek_findings [] = []
zeek_findings (l ∷ ls) =
    finding (codes "zeek_analysis_available") info (codes "Zeek log evidence is available.") ∷ []

abbrev finding_if : Bool → Finding → List Finding
finding_if b f = if b then f ∷ [] else []

abbrev ascii_findings : Option Report → List Finding
ascii_findings none = []
ascii_findings (some r) =
    finding (codes "ascii_strings_extracted") info (
        codes "Extracted "
        ++ print_int (pos (length r.strings))
        ++ codes " printable ASCII strings from the capture with bounded output.")
      ∷ finding_if r.redacted (
          finding (codes "ascii_strings_redacted") warning
            (codes "One or more ASCII strings matched common secret patterns and were redacted."))
    ++ finding_if r.truncated (
        finding (codes "ascii_strings_truncated") warning
          (codes "ASCII extraction hit configured result limits."))

abbrev pub reason_text : Option Reason → Bytes
reason_text none = []
reason_text (some r) = reason_token r

-- The key that an error is counted under.
unfoldable pub error_key : ToolError → Bytes
unfolding token reason_token
error_key e = token e.kind ++ (codes "|" ++ (e.field ++ (codes "|" ++ reason_text e.reason)))

abbrev pub error_finding : ToolError → Finding
error_finding e = finding (token e.kind) warning e.message

-- The loop over the errors, with the keys that were seen.
unfoldable pub error_findings : List Bytes → List ToolError → List Finding
unfolding error_key mentions
error_findings seen [] = []
error_findings seen (e ∷ es) =
    let again = error_findings seen es in
    let rest = error_findings (error_key e ∷ seen) es in
    if mentions (error_key e) seen then again else error_finding e ∷ rest

abbrev pub generated : Finding
generated =
    finding (codes "analysis_generated") info
      (codes "Generated bounded pcap evidence from available analyzers.")

-- The findings on the sections that are there.
unfoldable pub evidence_findings : {F : Type 0} → AnalyzeOutput F → List Finding
unfolding tshark_sections print_int
evidence_findings out =
    generated ∷ tshark_findings (tshark_sections out)
    ++ zeek_findings out.zeek_logs
    ++ ascii_findings out.ascii

-- `buildFindings`
unfoldable pub build_findings : {F : Type 0} → AnalyzeOutput F → Option Summary → List Finding
unfolding evidence_findings error_findings signal_findings
build_findings out summary =
    evidence_findings out ++ error_findings [] out.errors ++ summary_findings summary

-- The loop that drops the warnings whose message was seen.
unfoldable pub distinct_warnings : List Bytes → List Finding → List Finding
unfolding mentions
distinct_warnings seen [] = []
distinct_warnings seen (w ∷ ws) =
    let again = distinct_warnings seen ws in
    let rest = distinct_warnings (w.message ∷ seen) ws in
    if mentions w.message seen then again else w ∷ rest
