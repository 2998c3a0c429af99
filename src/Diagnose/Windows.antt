-- ===== src/Diagnose/Windows.antt =====
-- Helpers over the packets of a flow in internal/pcap/diagnose.go: `packetsBetween`,
-- `packetNumbers`, `uniqueInts`, the first and the last time, `medianInterval` and the like.
pub mod Laws
pub mod Unique
use cute_pcap_mcp.Base.{
  ℕ, suc, ◌+◌, ◌-◌, ◌/◌, ◌%◌, Bool, true, false, not, ◌&&◌, ◌||◌, List, [], ◌∷◌, ◌++◌, map, Option,
  none, some, ltb, ◌==◌, if◌then◌else◌, length, get_elem?,
}
use cute_pcap_mcp.Base.Text.{Bytes, lt_bytes, is_empty, mentions}
use cute_pcap_mcp.Base.Int.{ℤ, pos, eq_ℤ, lt_ℤ, le_ℤ, add64, sub64, half64}
use cute_pcap_mcp.Base.Sort.{sort}
use cute_pcap_mcp.Diagnose.{Packet, Flow, FlowGroup, interface_label}
use cute_pcap_mcp.Diagnose.Flows.{Direction, forward, backward, neither, direction}

abbrev pub is_forward : Flow → Packet → Bool
is_forward flow p = elim (direction flow p) [ forward ↦ true | _ ↦ false ]

abbrev pub is_backward : Flow → Packet → Bool
is_backward flow p = elim (direction flow p) [ backward ↦ true | _ ↦ false ]

-- A loop that keeps the packets that pass a test.
unfoldable pub keep : (Packet → Bool) → List Packet → List Packet
keep test [] = []
keep test (p ∷ ps) = let rest = keep test ps in if test p then p ∷ rest else rest

-- A loop that returns at the first packet that passes a test.
unfoldable pub find_first : (Packet → Bool) → List Packet → Option Packet
find_first test [] = none
find_first test (p ∷ ps) = if test p then some p else find_first test ps

abbrev time_of : Packet → Option Packet → ℤ
time_of start none = start.time_ms
time_of start (some p) = p.time_ms

abbrev or_start : Packet → List Packet → List Packet
or_start start [] = start ∷ []
or_start start (p ∷ ps) = p ∷ ps

-- `packetsBetween`, whose callers give a start that is not nil
unfoldable pub packets_between : List Packet → Packet → Option Packet → List Packet
unfolding keep
packets_between ps start end_ =
    let last = time_of start end_ in
    or_start start (keep (λ p. le_ℤ start.time_ms p.time_ms && le_ℤ p.time_ms last) ps)

-- The loop of `uniqueInts` after the first value; `last` is the value before.
unfoldable pub unique_after : ℤ → List ℤ → List ℤ
unique_after last [] = []
unique_after last (v ∷ vs) = let rest = unique_after v vs in if eq_ℤ v last then rest else v ∷ rest

abbrev pub unique_sorted : List ℤ → List ℤ
unique_sorted [] = []
unique_sorted (v ∷ vs) = v ∷ unique_after v vs

unfoldable pub unique_ints : List ℤ → List ℤ
unfolding unique_after sort
unique_ints values = unique_sorted (sort lt_ℤ values)

unfoldable pub positive_numbers : List Packet → List ℤ
positive_numbers [] = []
positive_numbers (p ∷ ps) =
    let rest = positive_numbers ps in if lt_ℤ (pos 0) p.number then p.number ∷ rest else rest

unfoldable pub packet_numbers : List Packet → List ℤ
unfolding unique_ints positive_numbers
packet_numbers ps = unique_ints (positive_numbers ps)

-- The loops of `minInt64` and `firstPacketMS`, and of `maxInt64` and `lastPacketMS`.
unfoldable pub min_from : ℤ → List ℤ → ℤ
min_from m [] = m
min_from m (v ∷ vs) = min_from (if lt_ℤ v m then v else m) vs

unfoldable pub max_from : ℤ → List ℤ → ℤ
max_from m [] = m
max_from m (v ∷ vs) = max_from (if lt_ℤ m v then v else m) vs

unfoldable pub min_int64 : List ℤ → ℤ
unfolding min_from
min_int64 [] = pos 0
min_int64 (v ∷ vs) = min_from v vs

unfoldable pub max_int64 : List ℤ → ℤ
unfolding max_from
max_int64 [] = pos 0
max_int64 (v ∷ vs) = max_from v vs

abbrev pub times : List Packet → List ℤ
times [] = []
times (p ∷ ps) = p.time_ms ∷ times ps

unfoldable pub first_packet_ms : List Packet → ℤ
unfolding min_int64
first_packet_ms ps = min_int64 (times ps)

unfoldable pub last_packet_ms : List Packet → ℤ
unfolding max_int64
last_packet_ms ps = max_int64 (times ps)

unfoldable pub capture_duration_ms : List Packet → ℤ
unfolding first_packet_ms last_packet_ms sub64
capture_duration_ms [] = pos 0
capture_duration_ms (p ∷ []) = pos 0
capture_duration_ms (p ∷ q ∷ ps) =
    sub64 (last_packet_ms (p ∷ q ∷ ps)) (first_packet_ms (p ∷ q ∷ ps))

unfoldable pub gaps : List ℤ → List ℤ
unfolding sub64
gaps [] = []
gaps (t ∷ []) = []
gaps (t ∷ u ∷ ts) = sub64 u t ∷ gaps (u ∷ ts)

-- values[i], which is in range at each use
abbrev at : List ℤ → ℕ → ℤ
at values i = elim (get_elem? values i) [ none ↦ pos 0 | some v ↦ v ]

unfoldable pub middle : List ℤ → ℤ
unfolding half64 add64
middle intervals =
    let mid = length intervals / 2 in
    if length intervals % 2 == 1
    then at intervals mid
    else half64 (add64 (at intervals (mid - 1)) (at intervals mid))

unfoldable pub median_interval : List ℤ → ℤ
unfolding middle gaps sort
median_interval ts = if ltb (length ts) 2 then pos 0 else middle (sort lt_ℤ (gaps (sort lt_ℤ ts)))

abbrev pub is_opening : Flow → Packet → Bool
is_opening flow p = is_forward flow p && p.syn && not p.ack

unfoldable pub first_syn : FlowGroup → Option Packet
unfolding find_first
first_syn g = find_first (is_opening g.flow) g.packets

abbrev pub is_server_rst : Flow → Packet → Bool
is_server_rst flow p = is_backward flow p && p.rst

unfoldable pub any_packet : (Packet → Bool) → List Packet → Bool
any_packet test [] = false
any_packet test (p ∷ ps) = if test p then true else any_packet test ps

unfoldable pub flow_has_server_rst : FlowGroup → Bool
unfolding any_packet
flow_has_server_rst g = any_packet (is_server_rst g.flow) g.packets

unfoldable pub server_rst_packet_numbers : FlowGroup → List ℤ
unfolding positive_numbers keep
server_rst_packet_numbers g = positive_numbers (keep (is_server_rst g.flow) g.packets)

unfoldable pub max_payload_from : Flow → ℤ → List Packet → ℤ
max_payload_from flow m [] = m
max_payload_from flow m (p ∷ ps) =
    max_payload_from flow (if is_forward flow p && lt_ℤ m p.tcp_len then p.tcp_len else m) ps

unfoldable pub max_client_payload : FlowGroup → ℤ
unfolding max_payload_from
max_client_payload g = max_payload_from g.flow (pos 0) g.packets

-- The keys of a Go map used as a set, in the order of their first use.
abbrev pub set_add : Bytes → List Bytes → List Bytes
set_add k seen = if mentions k seen then seen else seen ++ k ∷ []

unfoldable pub collect_labels : (Packet → Bytes) → List Bytes → List Packet → List Bytes
unfolding mentions
collect_labels label seen [] = seen
collect_labels label seen (p ∷ ps) =
    collect_labels label (if is_empty (label p) then seen else set_add (label p) seen) ps

unfoldable pub flow_interfaces : List Packet → List Bytes
unfolding collect_labels sort interface_label
flow_interfaces ps = sort lt_bytes (collect_labels interface_label [] ps)

unfoldable pub capture_has_interface_metadata : List Packet → Bool
unfolding collect_labels
capture_has_interface_metadata ps =
    ltb 0 (length (collect_labels (λ p. p.interface_name) [] ps))
    || ltb 1 (length (collect_labels (λ p. p.interface_id) [] ps))

unfoldable pub contains_handshake_type : List ℤ → ℤ → Bool
contains_handshake_type [] want = false
contains_handshake_type (got ∷ types) want =
    if eq_ℤ got want then true else contains_handshake_type types want
