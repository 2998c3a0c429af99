-- ===== src/Diagnose/Tests.antt =====
-- A small capture, what the detectors say of it, and the theorems at it.
use cute_pcap_mcp.Base.{ℕ, List, [], ◌∷◌, none, some, ◌≡◌, refl, ◌↔◌, arith}
use cute_pcap_mcp.Base.Text.{Bytes, eq_bytes, lt_bytes}
use cute_pcap_mcp.Base.Text.Decimal.{decimal}
use cute_pcap_mcp.Diagnose.{FlowGroup}
use cute_pcap_mcp.Diagnose.Capture.{
  outgoing, opening, answer, confirmed, hello, refusal, capture, group,
}
use cute_pcap_mcp.Diagnose.Flows.{canonical_key, is_groupable, flow_groups, group_of, direction}
use cute_pcap_mcp.Diagnose.Flows.Keys.{SameEndpoints, IsPrintable, canonical_key_iff}
use cute_pcap_mcp.Diagnose.Flows.Groups.{IsGrouping, flow_groups-IsGrouping}
use cute_pcap_mcp.Diagnose.Tls.{detect_tls, tls_symptom}

code : Unit {0}
unfolding flow_groups group_of direction is_groupable detect_tls eq_bytes lt_bytes decimal
code = tt

group_is_sorted : group.packets ≡ opening ∷ answer ∷ confirmed ∷ hello ∷ refusal ∷ []
unfolding code
group_is_sorted = refl

one_group : flow_groups capture ≡ group ∷ []
unfolding code
one_group = refl

printable : (n : ℕ) (t : ℕ) → IsPrintable (outgoing n t)
printable n t = record {
  source_ip = omega arith;
  destination_ip = omega arith;
  source_port = (40000, refl);
  destination_port = (443, refl);
}

canonical_key_iff_example :
    (canonical_key confirmed ≡ canonical_key answer) ↔ SameEndpoints confirmed answer
unfolding code
canonical_key_iff_example = canonical_key_iff confirmed answer refl refl (printable 3 20) (record {
  source_ip = omega arith;
  destination_ip = omega arith;
  source_port = (443, refl);
  destination_port = (40000, refl);
})

flow_groups-IsGrouping_example : (ks : List Bytes) × IsGrouping capture (flow_groups capture) ks
flow_groups-IsGrouping_example = flow_groups-IsGrouping capture

tls_found : detect_tls group ≡ some (tls_symptom group hello)
unfolding code
tls_found = refl

abbrev plain_group : FlowGroup
plain_group = group_of (opening ∷ answer ∷ [])

no_tls : detect_tls plain_group ≡ none
unfolding code
no_tls = refl
