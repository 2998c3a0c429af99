-- ===== src/Signals/Tests.antt =====
-- A connection log with a reset by the originator and one without a side.
use cute_pcap_mcp.Base.{ℕ, Bool, false, List, [], ◌∷◌, map, Option, none, some, ◌≡◌, refl}
use mathlib.Core.Option.{none, some}
use cute_pcap_mcp.Base.Text.{Bytes, codes}
use cute_pcap_mcp.Base.Int.{ℤ}
use cute_pcap_mcp.Zeek.{Log, Record}
use cute_pcap_mcp.Signals.Rows.{records_of, connection_of, summarize_connections}
use cute_pcap_mcp.Signals.Build.{summary_of, build_summary}
use cute_pcap_mcp.Signals.Laws.{IsTop, summarize_connections-IsTop}
use cute_pcap_mcp.Signals.Health.{build_tcp_health, TcpHealth}
use cute_pcap_mcp.Signals.Health.Laws.{IsTally, build_tcp_health-IsTally}

abbrev connection : Bytes → Bytes → Record
connection uid state = (codes "uid", uid) ∷ (codes "conn_state", state) ∷ []

abbrev conn : Log
conn = record {
  name = codes "conn";
  fields = codes "uid" ∷ codes "conn_state" ∷ [];
  types = [];
  records =
      connection (codes "C1") (codes "RSTO")
      ∷ connection (codes "C2") (codes "SF")
      ∷ connection (codes "C3") (codes "RSTRH")
      ∷ [];
  truncated = false;
}

abbrev no_float : Bytes → Option ℤ
no_float s = none

abbrev plain : Bytes → Bytes × Bool
plain s = (s, false)

abbrev counts : Option TcpHealth → List ℕ
counts none = []
counts (some h) = h.reset_count ∷ h.by_originator ∷ h.by_responder ∷ []

tallies : counts (build_tcp_health (build_summary plain no_float (conn ∷ []))) ≡ 2 ∷ 1 ∷ 1 ∷ []
unfolding build_tcp_health build_summary
tallies = refl

summarize_connections-IsTop_example :
    IsTop
      (map (connection_of no_float) (records_of (some conn)))
      (summarize_connections no_float (some conn))
summarize_connections-IsTop_example = summarize_connections-IsTop no_float (some conn)

build_tcp_health-IsTally_example :
    IsTally
      (summary_of plain no_float (conn ∷ []))
      (build_tcp_health (build_summary plain no_float (conn ∷ [])))
build_tcp_health-IsTally_example = build_tcp_health-IsTally plain no_float conn []
