-- ===== src/Signals/Build.antt =====
-- The summary of a report: `buildAnalysisSummary`.
use cute_pcap_mcp.Base.{ℕ, suc, Bool, List, [], ◌∷◌, map, Option, none, some, if◌then◌else◌, length}
use mathlib.Core.Option.{none, some}
use cute_pcap_mcp.Base.Sort.{sort}
use cute_pcap_mcp.Base.Text.{Bytes, codes, lt_bytes}
use cute_pcap_mcp.Base.Int.{ℤ, pos, le_ℤ}
use cute_pcap_mcp.Zeek.{Log}
use cute_pcap_mcp.Signals.{
  LogCount, Connection, DnsQuery, HttpRequest, TlsHandshake, ZeekEvent, looks_reset,
}
use cute_pcap_mcp.Signals.Rows.{
  summarize_connections, summarize_dns, summarize_http, summarize_tls, summarize_events, log_in,
  first_log_in,
}

pub record Signals : Type 0 where
  pub connections : ℕ
  pub dns_queries : ℕ
  pub http_requests : ℕ
  pub tls_handshakes : ℕ
  pub notices : ℕ
  pub weird_events : ℕ
  pub tcp_resets : ℕ
  pub http_error_statuses : ℕ
  pub dns_rejections : ℕ

-- `AnalysisSummary`
pub record Summary : Type 0 where
  pub log_counts : List LogCount
  pub connections : List Connection
  pub dns_queries : List DnsQuery
  pub http_requests : List HttpRequest
  pub tls_handshakes : List TlsHandshake
  pub notices : List ZeekEvent
  pub weird_events : List ZeekEvent
  pub signals : Signals

-- A loop that counts the elements that pass a test.
abbrev pub count_if {ℓ} : {A : Type ℓ} → (A → Bool) → List A → ℕ
count_if p [] = 0
count_if p (x ∷ xs) = let rest = count_if p xs in if p x then suc rest else rest

abbrev pub is_error_status : HttpRequest → Bool
is_error_status r = le_ℤ (pos 400) r.status_code

abbrev pub is_rejected : DnsQuery → Bool
is_rejected q = q.rejected

abbrev count_log : Log → LogCount
count_log l = record { name = l.name; records = length l.records; truncated = l.truncated }

abbrev count_before : LogCount → LogCount → Bool
count_before a b = lt_bytes a.name b.name

abbrev pub signals_of :
    List Connection
    → List DnsQuery
    → List HttpRequest
    → List TlsHandshake
    → List ZeekEvent
    → List ZeekEvent
    → Signals
signals_of conns dns http tls notices weird = record {
  connections = length conns;
  dns_queries = length dns;
  http_requests = length http;
  tls_handshakes = length tls;
  notices = length notices;
  weird_events = length weird;
  tcp_resets = count_if looks_reset conns;
  http_error_statuses = count_if is_error_status http;
  dns_rejections = count_if is_rejected dns;
}

module _ (redact : Bytes → Bytes × Bool) (parse_float : Bytes → Option ℤ) where
  abbrev pub summary_of : List Log → Summary
  summary_of logs =
      let conns = summarize_connections parse_float (log_in logs (codes "conn")) in
      let dns = summarize_dns (log_in logs (codes "dns")) in
      let http = summarize_http redact parse_float (log_in logs (codes "http")) in
      let tls = summarize_tls (first_log_in logs (codes "ssl" ∷ codes "tls" ∷ [])) in
      let notices = summarize_events (codes "note") (codes "msg") (log_in logs (codes "notice")) in
      let weird = summarize_events (codes "name") (codes "notice") (log_in logs (codes "weird")) in
      record {
        log_counts = sort count_before (map count_log logs);
        connections = conns;
        dns_queries = dns;
        http_requests = http;
        tls_handshakes = tls;
        notices = notices;
        weird_events = weird;
        signals = signals_of conns dns http tls notices weird;
      }

  -- The map of the signals is never empty, so only a report without logs has no summary.
  unfoldable pub build_summary : List Log → Option Summary
  unfolding summarize_connections summarize_dns summarize_http summarize_tls summarize_events log_in
      first_log_in sort lt_bytes looks_reset
  build_summary [] = none
  build_summary (l ∷ ls) = some (summary_of (l ∷ ls))
