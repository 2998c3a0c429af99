-- ===== src/Signals/Rows.antt =====
-- The summary of each log: `summarizeConnections`, `summarizeDNS`, `summarizeHTTP`, `summarizeTLS` and
-- `summarizeEvents`, with their caps.
use cute_pcap_mcp.Base.{Bool, List, [], ◌∷◌, map, Option, none, some, if◌then◌else◌, take}
use mathlib.Core.Option.{none, some}
use cute_pcap_mcp.Base.Sort.{sort}
use cute_pcap_mcp.Base.Text.{Bytes, codes, eq_bytes}
use cute_pcap_mcp.Base.Text.Atoi.{atoi}
use cute_pcap_mcp.Base.Int.{ℤ, pos, lt_ℤ, add64}
use cute_pcap_mcp.Zeek.{Record, Log}
use cute_pcap_mcp.Signals.{
  summary_record_limit, Connection, DnsQuery, HttpRequest, TlsHandshake, ZeekEvent, is_unset,
  record_value, value, value_or, float_or_zero, int_or, zeek_set, dns_rejected,
}

module _ (parse_float : Bytes → Option ℤ) where
  -- `parseZeekInt`
  unfoldable pub parse_zeek_int : Bytes → ℤ
  unfolding is_unset atoi
  parse_zeek_int value =
      if is_unset value then pos 0 else int_or (atoi value) (float_or_zero (parse_float value))

  unfoldable pub connection_of : Record → Connection
  unfolding parse_zeek_int record_value add64
  connection_of r =
      let orig = parse_zeek_int (value_or r (codes "orig_bytes") (codes "orig_ip_bytes")) in
      let resp = parse_zeek_int (value_or r (codes "resp_bytes") (codes "resp_ip_bytes")) in
      record {
        uid = value r (codes "uid");
        protocol = value r (codes "proto");
        service = value r (codes "service");
        source = value r (codes "id.orig_h");
        source_port = value r (codes "id.orig_p");
        destination = value r (codes "id.resp_h");
        dest_port = value r (codes "id.resp_p");
        duration = value r (codes "duration");
        conn_state = value r (codes "conn_state");
        history = value r (codes "history");
        orig_bytes = orig;
        resp_bytes = resp;
        total_bytes = add64 orig resp;
      }

abbrev pub has_more_bytes : Connection → Connection → Bool
has_more_bytes a b = lt_ℤ b.total_bytes a.total_bytes

abbrev pub records_of : Option Log → List Record
records_of none = []
records_of (some log) = log.records

-- `summarizeConnections` and `capConnections`
unfoldable pub summarize_connections : (Bytes → Option ℤ) → Option Log → List Connection
unfolding sort connection_of
summarize_connections parse_float log =
    take summary_record_limit
      (sort has_more_bytes (map (connection_of parse_float) (records_of log)))

unfoldable pub dns_of : Record → DnsQuery
unfolding record_value zeek_set dns_rejected
dns_of r =
    let response = value_or r (codes "rcode_name") (codes "rcode") in
    record {
      uid = value r (codes "uid");
      source = value r (codes "id.orig_h");
      query = value r (codes "query");
      type_ = value_or r (codes "qtype_name") (codes "qtype");
      response = response;
      answers = zeek_set (value r (codes "answers"));
      rejected = dns_rejected response;
    }

unfoldable pub summarize_dns : Option Log → List DnsQuery
unfolding dns_of
summarize_dns log = take summary_record_limit (map dns_of (records_of log))

unfoldable pub http_of : (Bytes → Bytes × Bool) → (Bytes → Option ℤ) → Record → HttpRequest
unfolding record_value parse_zeek_int
http_of redact parse_float r =
    let (uri, redacted) = redact (value r (codes "uri")) in
    record {
      uid = value r (codes "uid");
      source = value r (codes "id.orig_h");
      destination = value r (codes "id.resp_h");
      method = value r (codes "method");
      host = value r (codes "host");
      uri = uri;
      user_agent = value r (codes "user_agent");
      status_code = parse_zeek_int parse_float (value r (codes "status_code"));
      status_msg = value r (codes "status_msg");
      mime_type = value r (codes "resp_mime_types");
      redacted = redacted;
    }

abbrev has_higher_status : HttpRequest → HttpRequest → Bool
has_higher_status a b = lt_ℤ b.status_code a.status_code

unfoldable pub summarize_http :
    (Bytes → Bytes × Bool) → (Bytes → Option ℤ) → Option Log → List HttpRequest
unfolding sort http_of
summarize_http redact parse_float log =
    take summary_record_limit
      (sort has_higher_status (map (http_of redact parse_float) (records_of log)))

unfoldable pub tls_of : Record → TlsHandshake
unfolding record_value
tls_of r = record {
  uid = value r (codes "uid");
  source = value r (codes "id.orig_h");
  destination = value r (codes "id.resp_h");
  server_name = value r (codes "server_name");
  version = value r (codes "version");
  cipher = value r (codes "cipher");
  ja3 = value r (codes "ja3");
  ja3s = value r (codes "ja3s");
  validation_status = value r (codes "validation_status");
}

unfoldable pub summarize_tls : Option Log → List TlsHandshake
unfolding tls_of
summarize_tls log = take summary_record_limit (map tls_of (records_of log))

unfoldable pub event_of : Bytes → Bytes → Record → ZeekEvent
unfolding record_value
event_of name_field message_field r = record {
  uid = value_or r (codes "uid") (codes "conn_uids");
  name = value r name_field;
  note = value r (codes "note");
  message = record_value r (message_field ∷ codes "msg" ∷ codes "notice" ∷ []);
  source = value_or r (codes "id.orig_h") (codes "src");
  destination = value_or r (codes "id.resp_h") (codes "dst");
}

unfoldable pub summarize_events : Bytes → Bytes → Option Log → List ZeekEvent
unfolding event_of
summarize_events name_field message_field log =
    take summary_record_limit (map (event_of name_field message_field) (records_of log))

-- `zeekLogIn` and `firstZeekLogIn`
unfoldable pub log_in : List Log → Bytes → Option Log
unfolding eq_bytes
log_in [] name = none
log_in (l ∷ ls) name = if eq_bytes l.name name then some l else log_in ls name

unfoldable pub first_log_in : List Log → List Bytes → Option Log
unfolding log_in
first_log_in logs [] = none
first_log_in logs (n ∷ ns) = elim (log_in logs n) [ some l ↦ some l | none ↦ first_log_in logs ns ]
