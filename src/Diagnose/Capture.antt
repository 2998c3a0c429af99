-- ===== src/Diagnose/Capture.antt =====
-- A small capture for the tests: a handshake, a Client Hello and a refusal.
use cute_pcap_mcp.Base.{ℕ, true, false, List, [], ◌∷◌}
use cute_pcap_mcp.Base.Text.{codes}
use cute_pcap_mcp.Base.Int.{pos}
use cute_pcap_mcp.Diagnose.{Packet, FlowGroup}
use cute_pcap_mcp.Diagnose.Flows.{group_of}

-- A TCP packet from the client to port 443 of the server.
abbrev pub outgoing : ℕ → ℕ → Packet
outgoing number time = record {
  number = pos number;
  time_ms = pos time;
  frame_len = pos 60;
  captured_len = pos 60;
  interface_id = [];
  interface_name = codes "eth0";
  src_ip = codes "10.0.0.1";
  dst_ip = codes "10.0.0.2";
  src_port = pos 40000;
  dst_port = pos 443;
  protocol = codes "tcp";
  syn = false;
  ack = true;
  rst = false;
  fin = false;
  tcp_len = pos 0;
  data_len = pos 0;
  tls_handshake_types = [];
  tls_record_version = [];
  http_plaintext = false;
}

abbrev pub incoming : ℕ → ℕ → Packet
incoming number time = record (outgoing number time) {
  src_ip = codes "10.0.0.2";
  dst_ip = codes "10.0.0.1";
  src_port = pos 443;
  dst_port = pos 40000;
}

abbrev pub opening : Packet
opening = record (outgoing 1 0) { syn = true; ack = false }

abbrev pub answer : Packet
answer = record (incoming 2 10) { syn = true }

abbrev pub confirmed : Packet
confirmed = outgoing 3 20

abbrev pub hello : Packet
hello = record (outgoing 4 30) { tls_handshake_types = pos 1 ∷ []; tcp_len = pos 200 }

abbrev pub refusal : Packet
refusal = record (incoming 5 40) { rst = true }

-- Out of order, as the rows of a capture may be.
abbrev pub capture : List Packet
capture = answer ∷ opening ∷ confirmed ∷ refusal ∷ hello ∷ []

abbrev pub group : FlowGroup
group = group_of capture

-- The handshake and a RST, with no data.
abbrev pub silent_group : FlowGroup
silent_group = group_of (opening ∷ answer ∷ confirmed ∷ refusal ∷ [])

-- A connection from another port that is refused at once.
abbrev pub refused_from : ℕ → ℕ → FlowGroup
refused_from port time = group_of (
    record (outgoing 6 time) { src_port = pos port; syn = true; ack = false }
    ∷ record (incoming 7 time) { dst_port = pos port; rst = true }
    ∷ [])
