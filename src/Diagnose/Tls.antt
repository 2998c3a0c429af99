-- ===== src/Diagnose/Tls.antt =====
-- `diagnoseTLSHandshakeAttemptedOnPlainPort` of internal/pcap/diagnose.go.
pub mod Laws
use cute_pcap_mcp.Base.{
  Bool, true, false, not, ◌&&◌, ◌||◌, List, [], ◌∷◌, Option, none, some, if◌then◌else◌, length,
}
use cute_pcap_mcp.Base.Text.{Bytes, codes, is_empty}
use cute_pcap_mcp.Base.Int.{ℤ, pos, lt_ℤ}
use cute_pcap_mcp.Diagnose.{
  Packet, Flow, FlowGroup, Symptom, evidence, tls_on_plain_port, warning, high, ResponseKind,
  no_response, rst, http_plaintext, other_plaintext,
}
use cute_pcap_mcp.Diagnose.Windows.{
  is_forward, is_backward, packets_between, packet_numbers, first_packet_ms, last_packet_ms,
  contains_handshake_type,
}

-- The variables of the first loop.
pub record Hellos : Type 0 where
  pub client : Option Packet
  pub server_seen : Bool

abbrev pub has_client_hello : Flow → Packet → Bool
has_client_hello flow p = is_forward flow p && contains_handshake_type p.tls_handshake_types (pos 1)

abbrev pub has_server_hello : Flow → Packet → Bool
has_server_hello flow p =
    is_backward flow p && contains_handshake_type p.tls_handshake_types (pos 2)

-- clientHello == nil
abbrev or_else : Option Packet → Option Packet → Option Packet
or_else none other = other
or_else (some p) other = some p

-- A round of the first loop.
abbrev pub note_hello : Flow → Packet → Hellos → Hellos
note_hello flow p h = record {
  client = if has_client_hello flow p then or_else h.client (some p) else h.client;
  server_seen = h.server_seen || has_server_hello flow p;
}

unfoldable pub hellos : Flow → Hellos → List Packet → Hellos
hellos flow h [] = h
hellos flow h (p ∷ ps) = hellos flow (note_hello flow p h) ps

-- The switch of the second loop; `none` where no case applies.
unfoldable pub response_kind : Packet → Option ResponseKind
response_kind p =
    if p.rst
    then some rst
    else if p.http_plaintext
    then some http_plaintext
    else if lt_ℤ (pos 0) p.tcp_len || lt_ℤ (pos 0) p.data_len
    then some other_plaintext
    else none

-- The second loop, which is left at the first response.
unfoldable pub find_response : Flow → Packet → List Packet → Option (Packet × ResponseKind)
unfolding response_kind
find_response flow hello [] = none
find_response flow hello (p ∷ ps) =
    let rest = find_response flow hello ps in
    if lt_ℤ p.time_ms hello.time_ms || not (is_backward flow p)
    then rest
    else elim (response_kind p) [ some kind ↦ some (p, kind) | none ↦ rest ]

abbrev pub responder : Option (Packet × ResponseKind) → Option Packet
responder none = none
responder (some (p, kind)) = some p

abbrev kind_or_none : Option (Packet × ResponseKind) → ResponseKind
kind_or_none none = no_response
kind_or_none (some (p, kind)) = kind

unfoldable pub tls_symptom : FlowGroup → Packet → Symptom
unfolding find_response packets_between packet_numbers first_packet_ms last_packet_ms
tls_symptom g hello =
    let response = find_response g.flow hello g.packets in
    let packets = packets_between g.packets hello (responder response) in
    let e =
      evidence g.flow (length packets) (packet_numbers packets) (first_packet_ms packets)
        (last_packet_ms packets) in
    record {
      code = tls_on_plain_port;
      severity = warning;
      confidence = high;
      evidence = record e {
        client_hello_observed = some true;
        server_response_kind = some (kind_or_none response);
        tls_version_offered =
            if is_empty hello.tls_record_version then codes "unknown" else hello.tls_record_version;
      };
    }

abbrev decide_tls : FlowGroup → Hellos → Option Symptom
decide_tls g h = elim h.client [
  | none ↦ none
  | some hello ↦ if h.server_seen then none else some (tls_symptom g hello)
]

abbrev pub no_hellos : Hellos
no_hellos = record { client = none; server_seen = false }

unfoldable pub detect_tls : FlowGroup → Option Symptom
unfolding hellos tls_symptom contains_handshake_type
detect_tls g = decide_tls g (hellos g.flow no_hellos g.packets)
