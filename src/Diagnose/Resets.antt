-- ===== src/Diagnose/Resets.antt =====
-- `diagnoseTCPRSTAfterSYNACKNoAppData` of internal/pcap/diagnose.go.
pub mod Laws
pub mod Silence
use cute_pcap_mcp.Base.{
  Bool, true, false, not, ◌&&◌, ◌||◌, List, [], ◌∷◌, Option, none, some, if◌then◌else◌, length,
}
use cute_pcap_mcp.Base.Int.{ℤ, pos, eq_ℤ, lt_ℤ, le_ℤ, add64, sub64}
use cute_pcap_mcp.Diagnose.{
  Packet, Flow, FlowGroup, Symptom, evidence, rst_after_synack, warning, high,
}
use cute_pcap_mcp.Diagnose.Flows.{direction, forward, backward, neither}
use cute_pcap_mcp.Diagnose.Windows.{
  is_forward, is_backward, packets_between, packet_numbers, first_packet_ms, last_packet_ms,
}

-- The four pointers of the first loop.
pub record Handshake : Type 0 where
  pub syn : Option Packet
  pub synack : Option Packet
  pub ack : Option Packet
  pub rst : Option Packet

abbrev pub is_none : Option Packet → Bool
is_none none = true
is_none (some p) = false

-- The switch of the first loop: at most one pointer is set.
unfoldable pub advance : Flow → Packet → Handshake → Handshake
advance flow p h =
    if is_none h.syn && is_forward flow p && p.syn && not p.ack
    then record h { syn = some p }
    else if not (is_none h.syn) && is_none h.synack && is_backward flow p && p.syn && p.ack
    then record h { synack = some p }
    else if not (is_none h.synack) && is_none h.ack && is_forward flow p && not p.syn && p.ack
    then record h { ack = some p }
    else if not (is_none h.ack) && is_none h.rst && is_backward flow p && p.rst
    then record h { rst = some p }
    else h

unfoldable pub handshake : Flow → Handshake → List Packet → Handshake
unfolding advance
handshake flow h [] = h
handshake flow h (p ∷ ps) = handshake flow (advance flow p h) ps

pub record AppBytes : Type 0 where
  pub client : ℤ
  pub server : ℤ

-- p.TimeMS <= ack.TimeMS || p.TimeMS > rst.TimeMS, negated
abbrev pub in_window : Packet → Packet → Packet → Bool
in_window ack rst p = not (le_ℤ p.time_ms ack.time_ms || lt_ℤ rst.time_ms p.time_ms)

-- A round of the second loop.
unfoldable pub count_bytes : Flow → Packet → Packet → Packet → AppBytes → AppBytes
count_bytes flow ack rst p b =
    if in_window ack rst p
    then elim (direction flow p) [
      | forward ↦ record b { client = add64 b.client p.tcp_len }
      | backward ↦ if p.rst then b else record b { server = add64 b.server p.tcp_len }
      | neither ↦ b
    ]
    else b

unfoldable pub app_bytes : Flow → Packet → Packet → AppBytes → List Packet → AppBytes
unfolding count_bytes
app_bytes flow ack rst b [] = b
app_bytes flow ack rst b (p ∷ ps) = app_bytes flow ack rst (count_bytes flow ack rst p b) ps

unfoldable pub reset_symptom : FlowGroup → Packet → Packet → Packet → AppBytes → Symptom
unfolding packets_between packet_numbers first_packet_ms last_packet_ms sub64
reset_symptom g syn ack rst b =
    let packets = packets_between g.packets syn (some rst) in
    let e =
      evidence g.flow (length packets) (packet_numbers packets) (first_packet_ms packets)
        (last_packet_ms packets) in
    record {
      code = rst_after_synack;
      severity = warning;
      confidence = high;
      evidence = record e {
        handshake_completed = some true;
        app_bytes_client_to_server = b.client;
        app_bytes_server_to_client = b.server;
        time_to_rst_ms = sub64 rst.time_ms ack.time_ms;
      };
    }

abbrev pub no_handshake : Handshake
no_handshake = record { syn = none; synack = none; ack = none; rst = none }

abbrev pub no_bytes : AppBytes
no_bytes = record { client = pos 0; server = pos 0 }

-- The rest of the function, after the four packets are found.
unfoldable pub if_silent : FlowGroup → Packet → Packet → Packet → AppBytes → Option Symptom
unfolding reset_symptom
if_silent g syn ack rst b =
    if not (eq_ℤ b.client (pos 0)) || not (eq_ℤ b.server (pos 0))
    then none
    else some (reset_symptom g syn ack rst b)

unfoldable pub silent_reset : FlowGroup → Packet → Packet → Packet → Option Symptom
unfolding app_bytes if_silent
silent_reset g syn ack rst = if_silent g syn ack rst (app_bytes g.flow ack rst no_bytes g.packets)

unfoldable pub decide_reset :
    FlowGroup → Option Packet → Option Packet → Option Packet → Option Packet → Option Symptom
unfolding silent_reset
decide_reset g (some syn) (some synack) (some ack) (some rst) = silent_reset g syn ack rst
decide_reset g _ _ _ _ = none

unfoldable pub detect_reset : FlowGroup → Option Symptom
unfolding handshake decide_reset
detect_reset g =
    let h = handshake g.flow no_handshake g.packets in decide_reset g h.syn h.synack h.ack h.rst
