-- ===== src/Diagnose/Rows.antt =====
-- Packets from the rows that tshark prints: `parseDiagnosePacketRows` of internal/pcap/diagnose.go
-- and its helpers. The parameter `read_all` is the reader of tab-separated records with lazy quotes,
-- and `milliseconds` is strconv.ParseFloat, times 1000 and rounded to an int64.
pub mod Laws
use cute_pcap_mcp.Base.{
  ℕ, suc, ◌+◌, ◌-◌, ◌*◌, ◌<◌, ◌≤◌, Bool, true, false, not, ◌&&◌, ◌||◌, List, [], ◌∷◌, ◌++◌, map,
  Option, none, some, ◌≡◌, refl, sym, ap, ◌∙◌, ◌↔◌, ◌⊎◌, inl, inr, ltb, leb, ◌==◌, if◌then◌else◌,
  All, All-append, arith, Bool-cases, Option-cases, some_eq, length, get_elem?, drop, any, all,
}
use cute_pcap_mcp.Base.Text.{
  Bytes, codes, eq_bytes, contains, to_lower, trim_space, is_empty, first_non_empty,
}
use cute_pcap_mcp.Base.Text.Atoi.{atoi}
use cute_pcap_mcp.Base.Int.{ℤ, pos}
use cute_pcap_mcp.Errors.{Result, ok, failed, Err, wrapped, err_analyzer_failed}
use cute_pcap_mcp.Diagnose.{Packet, truncated}
use cute_pcap_mcp.Diagnose.Windows.{any_packet}

-- The switch of `normalizeDiagnoseProtocol`.
unfoldable pub protocol_class : Bytes → Bytes
unfolding contains eq_bytes
protocol_class protocol =
    if contains protocol (codes "tcp")
      || contains protocol (codes "tls")
      || contains protocol (codes "http")
    then codes "tcp"
    else if contains protocol (codes "udp") || eq_bytes protocol (codes "dns")
    then codes "udp"
    else if contains protocol (codes "icmp")
    then codes "icmp"
    else protocol

unfoldable pub normalize_protocol : Bytes → Bytes
unfolding protocol_class trim_space to_lower
normalize_protocol raw = protocol_class (to_lower (trim_space raw))

unfoldable pub protocol_from_ports : Bytes → Bytes → Bytes → Bytes → Bytes
protocol_from_ports tcp_src udp_src tcp_dst udp_dst =
    if not (is_empty tcp_src) || not (is_empty tcp_dst)
    then codes "tcp"
    else if not (is_empty udp_src) || not (is_empty udp_dst)
    then codes "udp"
    else []

unfoldable pub parse_bool : Bytes → Bool
unfolding trim_space to_lower eq_bytes
parse_bool raw =
    let value = trim_space (to_lower raw) in
    eq_bytes value (codes "1") || eq_bytes value (codes "true")

-- strings.FieldsFunc at commas, semicolons and spaces; `part` is the field that is being read.
abbrev is_separator : ℕ → Bool
is_separator c = c == b',' || c == b';' || c == b' '

abbrev close_part : Bytes → List Bytes → List Bytes
close_part part rest = if is_empty part then rest else part ∷ rest

unfoldable pub fields_from : Bytes → Bytes → List Bytes
fields_from part [] = close_part part []
fields_from part (c ∷ s) =
    let closed = close_part part (fields_from [] s) in
    let longer = fields_from (part ++ c ∷ []) s in if is_separator c then closed else longer

abbrev prepend_number : Option ℤ → List ℤ → List ℤ
prepend_number none ns = ns
prepend_number (some n) ns = n ∷ ns

unfoldable pub numbers : List Bytes → List ℤ
unfolding atoi trim_space
numbers [] = []
numbers (part ∷ parts) = prepend_number (atoi (trim_space part)) (numbers parts)

unfoldable pub parse_handshake_types : Bytes → List ℤ
unfolding fields_from numbers trim_space
parse_handshake_types value =
    if is_empty (trim_space value) then [] else numbers (fields_from [] value)

abbrev any_of : Bytes → Bytes → Bytes → Bytes → Bool
any_of s a b c = eq_bytes s a || eq_bytes s b || eq_bytes s c

unfoldable pub normalize_tls_version : Bytes → Bytes
unfolding trim_space to_lower eq_bytes
normalize_tls_version raw =
    let value = trim_space raw in
    let version = to_lower value in
    if any_of version (codes "0x0301") (codes "tls 1.0") (codes "tls1.0")
    then codes "TLS1.0"
    else if any_of version (codes "0x0302") (codes "tls 1.1") (codes "tls1.1")
    then codes "TLS1.1"
    else if any_of version (codes "0x0303") (codes "tls 1.2") (codes "tls1.2")
    then codes "TLS1.2"
    else if any_of version (codes "0x0304") (codes "tls 1.3") (codes "tls1.3")
    then codes "TLS1.3"
    else value

abbrev or_fallback : Option ℤ → ℤ → ℤ
or_fallback none fallback = fallback
or_fallback (some n) fallback = n

unfoldable pub atoi_default : Bytes → ℤ → ℤ
unfolding atoi trim_space
atoi_default value fallback =
    if is_empty (trim_space value) then fallback else or_fallback (atoi (trim_space value)) fallback

-- record[idx], trimmed
abbrev trimmed : Option Bytes → Bytes
trimmed none = []
trimmed (some s) = trim_space s

unfoldable pub field : List Bytes → ℕ → Bytes
unfolding trim_space
field row i = trimmed (get_elem? row i)

module _ (milliseconds : Bytes → Option ℤ) where
  unfoldable pub seconds_to_ms : Bytes → ℤ
  unfolding trim_space
  seconds_to_ms value = or_fallback (milliseconds (trim_space value)) (pos 0)

  -- A round of the loop over the records.
  unfoldable pub packet_of : List Bytes → Packet
  unfolding field seconds_to_ms atoi_default first_non_empty protocol_from_ports normalize_protocol
      to_lower parse_bool parse_handshake_types normalize_tls_version
  packet_of row =
      let protocol = to_lower (
        first_non_empty (
          field row 14
          ∷ protocol_from_ports (field row 8) (field row 9) (field row 12) (field row 13)
          ∷ [])) in
      record {
        number = atoi_default (field row 0) (pos 0);
        time_ms = seconds_to_ms (field row 1);
        frame_len = atoi_default (field row 2) (pos 0);
        captured_len = atoi_default (field row 3) (pos 0);
        interface_id = field row 4;
        interface_name = field row 5;
        src_ip = first_non_empty (field row 6 ∷ field row 7 ∷ []);
        src_port = atoi_default (first_non_empty (field row 8 ∷ field row 9 ∷ [])) (pos 0);
        dst_ip = first_non_empty (field row 10 ∷ field row 11 ∷ []);
        dst_port = atoi_default (first_non_empty (field row 12 ∷ field row 13 ∷ [])) (pos 0);
        protocol = normalize_protocol protocol;
        syn = parse_bool (field row 15);
        ack = parse_bool (field row 16);
        rst = parse_bool (field row 17);
        fin = parse_bool (field row 18);
        tcp_len = atoi_default (field row 19) (pos 0);
        tls_handshake_types = parse_handshake_types (field row 20);
        tls_record_version = normalize_tls_version (field row 21);
        http_plaintext = not (is_empty (field row 22)) || not (is_empty (field row 23));
        data_len = atoi_default (field row 24) (pos 0);
      }

  abbrev packets_of : Option (List (List Bytes)) → Result (List Packet)
  packets_of none = failed (wrapped err_analyzer_failed (codes "parse diagnose packet fields"))
  packets_of (some []) = ok []
  packets_of (some (header ∷ rows)) = ok (map packet_of rows)

  -- The detail of the reader's error is left out.
  unfoldable pub parse_packet_rows :
      (Bytes → Option (List (List Bytes))) → Bytes → Result (List Packet)
  unfolding packet_of
  parse_packet_rows read_all raw = packets_of (read_all raw)

unfoldable pub packets_contain_truncation : List Packet → Bool
unfolding any_packet truncated
packets_contain_truncation ps = any_packet truncated ps
