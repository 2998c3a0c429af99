-- ===== src/Diagnose.antt =====
-- Packets, flows and symptoms of pcap_detect: the types of internal/pcap/diagnose.go. Go's `int`
-- and `int64` are ℤ, strings are lists of bytes, a nil pointer is `none`.
pub mod Flows
pub mod Windows
pub mod Tls
pub mod Resets
pub mod Probes
pub mod Paths
pub mod Run
pub mod Rows
pub mod Input
pub mod Handler
mod Capture
mod Tests
use cute_pcap_mcp.Base.{
  ℕ, Bool, true, false, ◌&&◌, List, Option, none, some, [], ◌∷◌, ◌++◌, if◌then◌else◌,
}
use cute_pcap_mcp.Base.Text.{Bytes, codes, is_empty}
use cute_pcap_mcp.Base.Int.{ℤ, pos, lt_ℤ}

pub record Packet : Type 0 where
  pub number : ℤ
  pub time_ms : ℤ
  pub frame_len : ℤ
  pub captured_len : ℤ
  pub interface_id : Bytes
  pub interface_name : Bytes
  pub src_ip : Bytes
  pub dst_ip : Bytes
  pub src_port : ℤ
  pub dst_port : ℤ
  pub protocol : Bytes
  pub syn : Bool
  pub ack : Bool
  pub rst : Bool
  pub fin : Bool
  pub tcp_len : ℤ
  pub data_len : ℤ
  pub tls_handshake_types : List ℤ
  pub tls_record_version : Bytes
  pub http_plaintext : Bool

unfoldable pub interface_label : Packet → Bytes
interface_label p =
    if is_empty p.interface_name
    then if is_empty p.interface_id then [] else codes "if" ++ p.interface_id
    else p.interface_name

unfoldable pub truncated : Packet → Bool
truncated p =
    lt_ℤ (pos 0) p.frame_len && lt_ℤ (pos 0) p.captured_len && lt_ℤ p.captured_len p.frame_len

pub record Endpoint : Type 0 where
  pub ip : Bytes
  pub port : ℤ

pub record Flow : Type 0 where
  pub source_ip : Bytes
  pub destination_ip : Bytes
  pub source_port : ℤ
  pub destination_port : ℤ
  pub protocol : Bytes

pub record FlowGroup : Type 0 where
  pub flow : Flow
  pub packets : List Packet

pub record Scope : Type 0 where
  pub source_ip : Bytes
  pub destination_ip : Bytes
  pub source_port : Option ℤ
  pub destination_port : Option ℤ
  pub protocol : Bytes

-- The closed vocabulary of symptoms, in the order of `diagnoseSymptomCodes`.
pub data SymptomCode : Type 0 where
  tls_on_plain_port rst_after_synack monitor_probe_rst asymmetric_path : SymptomCode

unfoldable pub code_token : SymptomCode → Bytes
code_token tls_on_plain_port = codes "tls_handshake_attempted_on_plain_port"
code_token rst_after_synack = codes "tcp_rst_after_synack_no_app_data"
code_token monitor_probe_rst = codes "monitor_probe_returns_rst"
code_token asymmetric_path = codes "asymmetric_return_path_observed"

pub data FindingCode : Type 0 where
  flow_unparseable capture_truncated window_too_short parse_timeout lacks_interface_metadata
        unrecognized_pattern input_invalid path_invalid artifact_mismatch :
      FindingCode

pub data Severity : Type 0 where
  info warning error : Severity

pub data Confidence : Type 0 where
  low medium high : Confidence

pub record Finding : Type 0 where
  pub code : FindingCode
  pub severity : Severity
  pub detail : Bytes

-- A quotient of integers, for the two float64 fields. Their divisors are not 0.
pub record Ratio : Type 0 where
  pub numerator : ℤ
  pub denominator : ℕ

pub data ResponseKind : Type 0 where
  no_response rst http_plaintext other_plaintext : ResponseKind

pub record Evidence : Type 0 where
  pub flow : Option Flow
  pub packet_count : ℕ
  pub packet_numbers : List ℤ
  pub first_seen_ms : ℤ
  pub last_seen_ms : ℤ
  pub client_hello_observed : Option Bool
  pub server_response_kind : Option ResponseKind
  pub tls_version_offered : Bytes
  pub handshake_completed : Option Bool
  pub app_bytes_client_to_server : ℤ
  pub app_bytes_server_to_client : ℤ
  pub time_to_rst_ms : ℤ
  pub probe_count : ℕ
  pub probe_cadence_seconds_p50 : Ratio
  pub rst_ratio : Ratio
  pub syn_seen : Option Bool
  pub syn_ack_seen : Option Bool
  pub interfaces_observed : List Bytes
  pub flow_complete_via_other_interface : Option Bool

-- The zero value, with the fields that every symptom fills.
abbrev pub evidence : Flow → ℕ → List ℤ → ℤ → ℤ → Evidence
evidence flow count numbers first last = record {
  flow = some flow;
  packet_count = count;
  packet_numbers = numbers;
  first_seen_ms = first;
  last_seen_ms = last;
  client_hello_observed = none;
  server_response_kind = none;
  tls_version_offered = [];
  handshake_completed = none;
  app_bytes_client_to_server = pos 0;
  app_bytes_server_to_client = pos 0;
  time_to_rst_ms = pos 0;
  probe_count = 0;
  probe_cadence_seconds_p50 = record { numerator = pos 0; denominator = 1 };
  rst_ratio = record { numerator = pos 0; denominator = 1 };
  syn_seen = none;
  syn_ack_seen = none;
  interfaces_observed = [];
  flow_complete_via_other_interface = none;
}

-- The narrative is a fixed sentence for each symptom and is left out.
pub record Symptom : Type 0 where
  pub code : SymptomCode
  pub severity : Severity
  pub confidence : Confidence
  pub evidence : Evidence

-- A symptom, where there is one, before others.
abbrev pub prepend : Option Symptom → List Symptom → List Symptom
prepend none ss = ss
prepend (some s) ss = s ∷ ss
