-- ===== src/Diagnose/Paths.antt =====
-- `diagnoseAsymmetricReturnPathObserved` of internal/pcap/diagnose.go.
pub mod Laws
use cute_pcap_mcp.Base.{
  Bool, true, false, not, ◌&&◌, List, [], ◌∷◌, Option, none, some, if◌then◌else◌, length,
}
use cute_pcap_mcp.Base.Text.{eq_bytes, is_empty}
use cute_pcap_mcp.Diagnose.{
  Packet, Flow, FlowGroup, Scope, Symptom, Evidence, evidence, prepend, asymmetric_path, warning,
  medium, interface_label,
}
use cute_pcap_mcp.Diagnose.Flows.{matches_scope}
use cute_pcap_mcp.Diagnose.Windows.{
  is_backward, keep, find_first, first_syn, packets_between, packet_numbers, first_packet_ms,
  last_packet_ms, flow_interfaces,
}

abbrev pub is_synack : Flow → Packet → Bool
is_synack flow p = is_backward flow p && p.syn && p.ack

-- A SYN ACK that is known to come by another interface than `syn`.
unfoldable pub by_other_interface : Packet → Packet → Bool
unfolding interface_label
by_other_interface syn p =
    not (is_empty (interface_label p)) && not (eq_bytes (interface_label p) (interface_label syn))

abbrev path_symptom : FlowGroup → Evidence → Bool → Symptom
path_symptom g e answered = record {
  code = asymmetric_path;
  severity = warning;
  confidence = medium;
  evidence = record e {
    syn_seen = some true;
    syn_ack_seen = some answered;
    interfaces_observed = flow_interfaces g.packets;
    flow_complete_via_other_interface = some answered;
  };
}

unfoldable pub unanswered : FlowGroup → Packet → Symptom
unfolding packet_numbers flow_interfaces
unanswered g syn =
    path_symptom g (evidence g.flow 1 (packet_numbers (syn ∷ [])) syn.time_ms syn.time_ms) false

unfoldable pub answered_elsewhere : FlowGroup → Packet → Packet → Symptom
unfolding packets_between packet_numbers first_packet_ms last_packet_ms flow_interfaces
answered_elsewhere g syn reply =
    let packets = packets_between g.packets syn (some reply) in
    path_symptom g
      (evidence g.flow (length packets) (packet_numbers packets) (first_packet_ms packets)
        (last_packet_ms packets))
      true

abbrev pub answer_of : FlowGroup → Packet → Option Packet → Option Symptom
answer_of g syn none = none
answer_of g syn (some reply) = some (answered_elsewhere g syn reply)

unfoldable pub judge_synacks : FlowGroup → Packet → List Packet → Option Symptom
unfolding unanswered answered_elsewhere by_other_interface find_first
judge_synacks g syn [] = some (unanswered g syn)
judge_synacks g syn (p ∷ ps) = answer_of g syn (find_first (by_other_interface syn) (p ∷ ps))

unfoldable pub judge_opening : FlowGroup → Option Packet → Option Symptom
unfolding judge_synacks keep interface_label
judge_opening g none = none
judge_opening g (some syn) =
    if is_empty (interface_label syn)
    then none
    else judge_synacks g syn (keep (is_synack g.flow) g.packets)

-- A round of the loop; `none` is `continue`.
unfoldable pub judge_path : Option Scope → FlowGroup → Option Symptom
unfolding judge_opening matches_scope first_syn
judge_path scope g = if matches_scope g.flow scope then judge_opening g (first_syn g) else none

unfoldable pub detect_paths : List FlowGroup → Option Scope → List Symptom
unfolding judge_path
detect_paths [] scope = []
detect_paths (g ∷ gs) scope = prepend (judge_path scope g) (detect_paths gs scope)
