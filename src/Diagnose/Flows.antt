-- ===== src/Diagnose/Flows.antt =====
-- Flows of internal/pcap/diagnose.go: `flowGroups`, `canonicalFlowKey`, `endpointLess`,
-- `inferFlowOrientation`, `flowMatchesDiagnoseScope` and `packetDirection`.
pub mod Keys
pub mod Groups
use cute_pcap_mcp.Base.{
  ℕ, suc, Bool, true, false, not, ◌&&◌, ◌||◌, List, [], ◌∷◌, ◌++◌, map, Option, none, some,
  if◌then◌else◌,
}
use cute_pcap_mcp.Base.Text.{Bytes, codes, eq_bytes, lt_bytes, is_empty, to_lower, trim_space}
use cute_pcap_mcp.Base.Text.Atoi.{print_int}
use cute_pcap_mcp.Base.Int.{ℤ, pos, negsuc, eq_ℤ, lt_ℤ}
use cute_pcap_mcp.Base.Sort.{sort}
use cute_pcap_mcp.Diagnose.{Packet, Endpoint, Flow, FlowGroup, Scope}

unfoldable pub endpoint_less : Endpoint → Endpoint → Bool
endpoint_less a b = if eq_bytes a.ip b.ip then lt_ℤ a.port b.port else lt_bytes a.ip b.ip

abbrev pub source : Packet → Endpoint
source p = record { ip = p.src_ip; port = p.src_port }

abbrev pub destination : Packet → Endpoint
destination p = record { ip = p.dst_ip; port = p.dst_port }

-- The two endpoints, the smaller one first.
unfoldable pub ordered_pair : Packet → Endpoint × Endpoint
ordered_pair p =
    if endpoint_less (destination p) (source p)
    then (destination p, source p)
    else (source p, destination p)

-- The format %s:%d-%s:%d/%s
unfoldable pub print_key : Endpoint → Endpoint → Bytes → Bytes
unfolding print_int
print_key a b protocol =
    a.ip
    ++ (b':' ∷ print_int a.port ++ (b'-' ∷ b.ip ++ (b':' ∷ print_int b.port ++ (b'/' ∷ protocol))))

unfoldable pub canonical_key : Packet → Bytes
unfolding ordered_pair print_key endpoint_less
canonical_key p = let (a, b) = ordered_pair p in print_key a b p.protocol

unfoldable pub is_groupable : Packet → Bool
unfolding eq_bytes
is_groupable p = not (
    not (eq_bytes p.protocol (codes "tcp"))
    || is_empty p.src_ip
    || is_empty p.dst_ip
    || eq_ℤ p.src_port (pos 0)
    || eq_ℤ p.dst_port (pos 0))

-- A Go map from keys to packets, with its keys in the order of their first use.
abbrev pub Grouped : Type 0
Grouped = List (Bytes × List Packet)

-- grouped[key] = append(grouped[key], p)
unfoldable pub append_at : Bytes → Packet → Grouped → Grouped
append_at k p [] = (k, p ∷ []) ∷ []
append_at k p ((j, ps) ∷ g) =
    if eq_bytes j k then (j, ps ++ p ∷ []) ∷ g else (j, ps) ∷ append_at k p g

unfoldable pub group_from : Grouped → List Packet → Grouped
unfolding append_at
group_from g [] = g
group_from g (p ∷ ps) =
    group_from (if is_groupable p then append_at (canonical_key p) p g else g) ps

-- grouped[key]
unfoldable pub packets_at : Bytes → Grouped → List Packet
packets_at k [] = []
packets_at k ((j, ps) ∷ g) = if eq_bytes j k then ps else packets_at k g

abbrev pub keys : Grouped → List Bytes
keys [] = []
keys ((k, ps) ∷ g) = k ∷ keys g

-- The order by time, and by number at the same time.
unfoldable pub packet_less : Packet → Packet → Bool
packet_less p q =
    if eq_ℤ p.time_ms q.time_ms then lt_ℤ p.number q.number else lt_ℤ p.time_ms q.time_ms

abbrev flow_of : Packet → Flow
flow_of p = record {
  source_ip = p.src_ip;
  destination_ip = p.dst_ip;
  source_port = p.src_port;
  destination_port = p.dst_port;
  protocol = codes "tcp";
}

-- The loop of `inferFlowOrientation`: the first SYN without ACK.
unfoldable pub first_opening : List Packet → Option Packet
first_opening [] = none
first_opening (p ∷ ps) = if p.syn && not p.ack then some p else first_opening ps

abbrev flow_of_first : List Packet → Flow
flow_of_first [] = record {
  source_ip = [];
  destination_ip = [];
  source_port = pos 0;
  destination_port = pos 0;
  protocol = codes "tcp";
}
flow_of_first (p ∷ ps) = flow_of p

unfoldable pub orientation : List Packet → Flow
unfolding first_opening
orientation ps = elim (first_opening ps) [ some p ↦ flow_of p | none ↦ flow_of_first ps ]

unfoldable pub group_of : List Packet → FlowGroup
unfolding orientation packet_less sort
group_of ps =
    let sorted = sort packet_less ps in record { flow = orientation sorted; packets = sorted }

unfoldable pub flow_groups : List Packet → List FlowGroup
unfolding group_from packets_at group_of canonical_key is_groupable sort
flow_groups ps =
    let grouped = group_from [] ps in
    map (λ k. group_of (packets_at k grouped)) (sort lt_bytes (keys grouped))

-- value != "" && actual != wanted
abbrev differs : Bytes → Bytes → Bool
differs wanted actual = not (is_empty wanted) && not (eq_bytes actual (trim_space wanted))

abbrev port_differs : Option ℤ → ℤ → Bool
port_differs none actual = false
port_differs (some wanted) actual = not (eq_ℤ actual wanted)

unfoldable pub matches_scope : Flow → Option Scope → Bool
matches_scope flow none = true
matches_scope flow (some scope) =
    let protocol = to_lower (trim_space scope.protocol) in
    if not (is_empty protocol) && not (eq_bytes flow.protocol protocol)
    then false
    else if differs scope.source_ip flow.source_ip
    then false
    else if differs scope.destination_ip flow.destination_ip
    then false
    else if port_differs scope.source_port flow.source_port
    then false
    else if port_differs scope.destination_port flow.destination_port
    then false
    else true

-- The results 1, -1 and 0 of `packetDirection`.
pub data Direction : Type 0 where
  forward backward neither : Direction

unfoldable pub direction : Flow → Packet → Direction
direction flow p =
    if eq_bytes p.src_ip flow.source_ip
      && eq_ℤ p.src_port flow.source_port
      && eq_bytes p.dst_ip flow.destination_ip
      && eq_ℤ p.dst_port flow.destination_port
    then forward
    else if eq_bytes p.src_ip flow.destination_ip
        && eq_ℤ p.src_port flow.destination_port
        && eq_bytes p.dst_ip flow.source_ip
        && eq_ℤ p.dst_port flow.source_port
    then backward
    else neither
