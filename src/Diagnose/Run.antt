-- ===== src/Diagnose/Run.antt =====
-- `diagnoseSymptomsFromPackets` and `sortDiagnoseSymptoms` of internal/pcap/diagnose.go, and the
-- sets of enabled symptoms.
pub mod Fresh
pub mod Laws
mod Tests
use cute_pcap_mcp.Base.{
  ℕ, Bool, true, false, not, ◌&&◌, ◌||◌, List, [], ◌∷◌, ◌++◌, map, Option, none, some, ltb, ◌==◌,
  if◌then◌else◌,
}
use cute_pcap_mcp.Base.Text.{Bytes, codes, eq_bytes}
use cute_pcap_mcp.Base.Int.{ℤ, lt_ℤ, eq_ℤ}
use cute_pcap_mcp.Base.Sort.{sort}
use cute_pcap_mcp.Diagnose.{
  Packet, FlowGroup, Scope, Symptom, SymptomCode, Finding, tls_on_plain_port, rst_after_synack,
  monitor_probe_rst, asymmetric_path, window_too_short, lacks_interface_metadata, info, low,
  truncated, code_token,
}
use cute_pcap_mcp.Diagnose.Flows.{flow_groups, matches_scope}
use cute_pcap_mcp.Diagnose.Windows.{any_packet, capture_duration_ms, capture_has_interface_metadata}
use cute_pcap_mcp.Diagnose.Tls.{detect_tls}
use cute_pcap_mcp.Diagnose.Resets.{detect_reset}
use cute_pcap_mcp.Diagnose.Probes.{Probes, detect_probes, min_cadence_window_ms}
use cute_pcap_mcp.Diagnose.Paths.{detect_paths}

abbrev pub symptom_codes : List SymptomCode
symptom_codes = tls_on_plain_port ∷ rst_after_synack ∷ monitor_probe_rst ∷ asymmetric_path ∷ []

-- The map of the enabled codes, as a function.
abbrev pub Enabled : Type 0
Enabled = SymptomCode → Bool

unfoldable pub mentions_code : List Bytes → SymptomCode → Bool
unfolding code_token
mentions_code [] c = false
mentions_code (t ∷ ts) c = eq_bytes t (code_token c) || mentions_code ts c

-- `enabledDiagnoseSymptoms`
unfoldable pub enabled_symptoms : List Bytes → Enabled
unfolding mentions_code
enabled_symptoms [] c = true
enabled_symptoms (t ∷ ts) c = mentions_code (t ∷ ts) c

unfoldable pub is_symptom_code : Bytes → Bool
unfolding code_token
is_symptom_code token =
    eq_bytes token (code_token tls_on_plain_port)
    || eq_bytes token (code_token rst_after_synack)
    || eq_bytes token (code_token monitor_probe_rst)
    || eq_bytes token (code_token asymmetric_path)

abbrev pub add_if : Bool → Option Symptom → List Symptom → List Symptom
add_if false s acc = acc
add_if true none acc = acc
add_if true (some s) acc = acc ++ s ∷ []

-- The loop over the groups.
unfoldable pub flow_symptoms : Enabled → Option Scope → List Symptom → List FlowGroup → List Symptom
unfolding matches_scope detect_tls detect_reset
flow_symptoms on scope acc [] = acc
flow_symptoms on scope acc (g ∷ gs) =
    flow_symptoms on scope
      (if matches_scope g.flow scope
        then add_if (on rst_after_synack) (detect_reset g)
            (add_if (on tls_on_plain_port) (detect_tls g) acc)
        else acc)
      gs

pub record Diagnosis : Type 0 where
  pub symptoms : List Symptom
  pub findings : List Finding

abbrev pub note : Finding → Diagnosis → Diagnosis
note f d = record d { findings = d.findings ++ f ∷ [] }

abbrev pub include : List Symptom → Diagnosis → Diagnosis
include ss d = record d { symptoms = d.symptoms ++ ss }

abbrev pub window_finding : Finding
window_finding = record {
  code = window_too_short;
  severity = info;
  detail = codes "duration_ms below cadence window for monitor_probe_returns_rst";
}

abbrev pub interface_finding : Finding
interface_finding = record {
  code = lacks_interface_metadata;
  severity = info;
  detail = codes "interface metadata absent or single unnamed interface only";
}

unfoldable pub with_probes :
    (Probes → Probes)
    → Enabled
    → Option Scope
    → List Packet
    → List FlowGroup
    → Diagnosis
    → Diagnosis
unfolding detect_probes capture_duration_ms
with_probes order on scope packets groups d =
    if on monitor_probe_rst
    then if lt_ℤ (capture_duration_ms packets) min_cadence_window_ms
      then note window_finding d
      else include (detect_probes order groups scope) d
    else d

unfoldable pub with_paths :
    Enabled → Option Scope → List Packet → List FlowGroup → Diagnosis → Diagnosis
unfolding detect_paths capture_has_interface_metadata
with_paths on scope packets groups d =
    if on asymmetric_path
    then if capture_has_interface_metadata packets
      then include (detect_paths groups scope) d
      else note interface_finding d
    else d

-- truncatedPacketNumbers[n]
unfoldable pub is_truncated_number : List Packet → ℤ → Bool
unfolding any_packet truncated
is_truncated_number packets n = any_packet (λ p. truncated p && eq_ℤ p.number n) packets

unfoldable pub any_truncated : List Packet → List ℤ → Bool
unfolding is_truncated_number
any_truncated packets [] = false
any_truncated packets (n ∷ ns) =
    if is_truncated_number packets n then true else any_truncated packets ns

unfoldable pub downgrade : List Packet → Symptom → Symptom
unfolding any_truncated
downgrade packets s =
    if any_truncated packets s.evidence.packet_numbers then record s { confidence = low } else s

abbrev pub rank : SymptomCode → ℕ
rank tls_on_plain_port = 0
rank rst_after_synack = 1
rank monitor_probe_rst = 2
rank asymmetric_path = 3

-- The comparison of `sortDiagnoseSymptoms`. All codes have a rank, so its last test compares a code
-- with itself.
unfoldable pub symptom_less : Symptom → Symptom → Bool
symptom_less a b =
    if not (rank a.code == rank b.code)
    then ltb (rank a.code) (rank b.code)
    else if eq_ℤ a.evidence.first_seen_ms b.evidence.first_seen_ms
    then false
    else lt_ℤ a.evidence.first_seen_ms b.evidence.first_seen_ms

unfoldable pub diagnose : (Probes → Probes) → List Packet → Enabled → Option Scope → Diagnosis
unfolding flow_groups flow_symptoms with_probes with_paths downgrade symptom_less sort
diagnose order packets on scope =
    let groups = flow_groups packets in
    let found : Diagnosis = record { symptoms = flow_symptoms on scope [] groups; findings = [] } in
    let d = with_paths on scope packets groups (with_probes order on scope packets groups found) in
    record d { symptoms = sort symptom_less (map (downgrade packets) d.symptoms) }
