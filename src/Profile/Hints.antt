-- ===== src/Profile/Hints.antt =====
-- The hints on SNAT: `buildSNATHints`, `allConnectionsForSNATAnalysis`, `matchesVIP` and
-- `formatSNATEvidence` of internal/pcap/profile_f5.go.
pub mod Laws
pub mod Classified
use cute_pcap_mcp.Base.{
  ℕ, zero, suc, ◌+◌, ◌-◌, ◌*◌, ◌%◌, ◌/◌, ◌<◌, ◌≤◌, Bool, true, false, not, ◌&&◌, ◌||◌, List, [],
  ◌∷◌, ◌++◌, map, Option, none, some, ◌≡◌, ◌≢◌, refl, sym, ap, ◌∙◌, ◌↔◌, ◌⊎◌, inl, inr, ltb, leb,
  ◌==◌, if◌then◌else◌, All, All-append, arith, Bool-cases, Option-cases, some_eq, length, any, all,
  take, drop, get_elem?, length-append, length-take, not-true,
}
use mathlib.Core.Option.{none, some}
use cute_pcap_mcp.Base.Text.{Bytes, codes, eq_bytes, trim_space, is_empty}
use cute_pcap_mcp.Base.Int.{ℤ, pos, lt_ℤ, eq_ℤ}
use cute_pcap_mcp.Signals.{Connection}
use cute_pcap_mcp.Signals.Build.{Summary}
use cute_pcap_mcp.Profile.{Net, F5Context, int_to_string}

-- `F5SNATHint`
pub record Hint : Type 0 where
  pub description : Bytes
  pub evidence : Bytes

unfoldable pub format_snat_evidence : Bytes → ℕ → Bytes
unfolding int_to_string
format_snat_evidence label count =
    if count == 1 then codes "1 " ++ label else int_to_string (pos count) ++ codes " " ++ label

abbrev pub all_connections : Option Summary → List Connection
all_connections none = []
all_connections (some s) = s.connections

-- A context with nothing but notes has no field that the hints use.
unfoldable pub is_blank : F5Context → Bool
unfolding trim_space
is_blank ctx =
    is_empty (trim_space ctx.virtual_server_ip)
    && is_empty (trim_space ctx.virtual_server_name)
    && eq_ℤ ctx.virtual_server_port (pos 0)
    && is_empty (trim_space ctx.pool_name)
    && is_empty (trim_space ctx.snat_pool_name)

abbrev pub hint : Bytes → Bytes → Hint
hint description evidence = record { description = description; evidence = evidence }

abbrev pub no_context : List Hint
no_context =
    hint (codes "clientside_classification_skipped_no_context")
      (codes "no f5_context supplied; profile reports the unknown rather than guessing")
    ∷ []

abbrev pub no_vip_ip : List Hint
no_vip_ip =
    hint (codes "clientside_classification_skipped_no_vip_ip") (
      codes
        "f5_context.virtual_server_ip is required for clientside_to_vip classification; a port alone is insufficient")
    ∷ []

abbrev pub invalid_vip_ip : List Hint
invalid_vip_ip =
    hint (codes "clientside_classification_skipped_invalid_vip_ip")
      (codes "f5_context.virtual_server_ip did not parse as an IP address")
    ∷ []

abbrev pub no_connections : List Hint
no_connections =
    hint (codes "no_zeek_connections_visible_to_classify")
      (codes "the analyze pass returned no Zeek conn records under the active limits")
    ∷ []

-- The numbers of connections to the virtual server, and of the others.
pub record Sides : Type 0 where
  pub clientside : ℕ
  pub serverside : ℕ

abbrev pub no_sides : Sides
no_sides = record { clientside = 0; serverside = 0 }

abbrev pub hint_if_some : ℕ → Bytes → Bytes → List Hint
hint_if_some count description evidence = if ltb 0 count then hint description evidence ∷ [] else []

unfoldable pub hints_of : Sides → List Hint
unfolding format_snat_evidence
hints_of s =
    hint_if_some s.clientside (codes "clientside_to_vip_observed")
      (format_snat_evidence (codes "connection(s) destined for the configured VIP") s.clientside)
    ++ hint_if_some s.serverside (codes "non_vip_destinations_observed") (
        format_snat_evidence
          (codes
            "connection(s) destined for non-VIP addresses (possibly serverside, possibly unrelated traffic)")
          s.serverside)

module _ {Addr : Type 0} (net : Net Addr) where
  abbrev is_same : Addr → Option Addr → Bool
  is_same vip none = false
  is_same vip (some dest) = net.same dest vip

  unfoldable pub matches_vip : Connection → Addr → ℤ → Bool
  unfolding trim_space eq_bytes int_to_string
  matches_vip conn vip want_port =
      is_same vip (net.parse (trim_space conn.destination))
      && (not (lt_ℤ (pos 0) want_port)
          || eq_bytes (trim_space conn.dest_port) (int_to_string want_port))

  abbrev pub classify_one : Addr → ℤ → Connection → Sides → Sides
  classify_one vip want_port conn s =
      if matches_vip conn vip want_port
      then record s { clientside = suc s.clientside }
      else record s { serverside = suc s.serverside }

  unfoldable pub classify_all : Addr → ℤ → Sides → List Connection → Sides
  unfolding matches_vip
  classify_all vip want_port s [] = s
  classify_all vip want_port s (c ∷ cs) =
      classify_all vip want_port (classify_one vip want_port c s) cs

  unfoldable pub hints_for : Addr → ℤ → List Connection → List Hint
  unfolding classify_all hints_of
  hints_for vip want_port [] = no_connections
  hints_for vip want_port (c ∷ cs) = hints_of (classify_all vip want_port no_sides (c ∷ cs))

  abbrev pub with_vip : Option Addr → ℤ → List Connection → List Hint
  with_vip none want_port conns = invalid_vip_ip
  with_vip (some vip) want_port conns = hints_for vip want_port conns

  unfoldable pub build_snat_hints : Option Summary → Option F5Context → List Hint
  unfolding is_blank hints_for trim_space
  build_snat_hints summary none = no_context
  build_snat_hints summary (some ctx) =
      let vip_ip = trim_space ctx.virtual_server_ip in
      if is_blank ctx
      then no_context
      else if is_empty vip_ip
      then no_vip_ip
      else with_vip (net.parse vip_ip) ctx.virtual_server_port (all_connections summary)
