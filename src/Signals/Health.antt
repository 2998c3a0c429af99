-- ===== src/Signals/Health.antt =====
-- The resets among the connections: `buildTCPHealth` of internal/pcap/analyzer.go.
pub mod Laws
use cute_pcap_mcp.Base.{
  ℕ, zero, suc, ◌+◌, ◌-◌, ◌*◌, ◌%◌, ◌/◌, ◌<◌, ◌≤◌, Bool, true, false, not, ◌&&◌, ◌||◌, List, [],
  ◌∷◌, ◌++◌, map, Option, none, some, ◌≡◌, ◌≢◌, refl, sym, ap, ◌∙◌, ◌↔◌, ◌⊎◌, inl, inr, ltb, leb,
  ◌==◌, if◌then◌else◌, All, All-append, arith, Bool-cases, Option-cases, some_eq, length, any, all,
  take, drop, get_elem?, length-append, length-take, not-true,
}
use mathlib.Core.Option.{none, some}
use cute_pcap_mcp.Base.Text.{Bytes, codes, eq_bytes, to_upper}
use cute_pcap_mcp.Signals.{Connection, looks_reset}
use cute_pcap_mcp.Signals.Build.{Summary}

-- `TCPHealthSection`
pub record TcpHealth : Type 0 where
  pub reset_count : ℕ
  pub by_originator : ℕ
  pub by_responder : ℕ
  pub reset_connections : List Connection

abbrev pub no_resets : TcpHealth
no_resets = record { reset_count = 0; by_originator = 0; by_responder = 0; reset_connections = [] }

unfoldable pub is_by_originator : Connection → Bool
unfolding to_upper eq_bytes
is_by_originator c =
    let state = to_upper c.conn_state in
    eq_bytes state (codes "RSTO") || eq_bytes state (codes "RSTOS0")

unfoldable pub is_by_responder : Connection → Bool
unfolding to_upper eq_bytes
is_by_responder c =
    let state = to_upper c.conn_state in
    eq_bytes state (codes "RSTR") || eq_bytes state (codes "RSTRH")

-- The switch over the state of a connection that looks reset.
unfoldable pub count_reset : Connection → TcpHealth → TcpHealth
unfolding is_by_originator is_by_responder
count_reset c h = record {
  reset_count = suc h.reset_count;
  by_originator = if is_by_originator c then suc h.by_originator else h.by_originator;
  by_responder =
      if is_by_originator c
      then h.by_responder
      else if is_by_responder c
      then suc h.by_responder
      else h.by_responder;
  reset_connections = h.reset_connections ++ c ∷ [];
}

unfoldable pub count_resets : TcpHealth → List Connection → TcpHealth
unfolding count_reset looks_reset
count_resets h [] = h
count_resets h (c ∷ cs) = count_resets (if looks_reset c then count_reset c h else h) cs

abbrev pub unless_empty : TcpHealth → Option TcpHealth
unless_empty h = if h.reset_count == 0 then none else some h

unfoldable pub build_tcp_health : Option Summary → Option TcpHealth
unfolding count_resets
build_tcp_health none = none
build_tcp_health (some s) = unless_empty (count_resets no_resets s.connections)
