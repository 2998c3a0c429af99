-- ===== src/Diagnose/Probes.antt =====
-- `diagnoseMonitorProbeReturnsRST` of internal/pcap/diagnose.go. The map of probes is a list in the
-- order of first use; Go visits it in an unspecified order, so the order of the symptoms that the
-- last loop yields is that of a permutation `order` that the caller gives.
pub mod Counts
pub mod Laws
use cute_pcap_mcp.Base.{
  ℕ, suc, ◌*◌, Bool, ◌||◌, List, [], ◌∷◌, ◌++◌, Option, none, some, ltb, if◌then◌else◌, length,
}
use cute_pcap_mcp.Base.Text.{Bytes, eq_bytes}
use cute_pcap_mcp.Base.Int.{ℤ, pos, lt_ℤ}
use cute_pcap_mcp.Base.Text.Atoi.{print_int}
use cute_pcap_mcp.Diagnose.{
  Packet, Flow, FlowGroup, Scope, Symptom, evidence, prepend, monitor_probe_rst, info, medium,
}
use cute_pcap_mcp.Diagnose.Flows.{matches_scope}
use cute_pcap_mcp.Diagnose.Windows.{
  first_syn, flow_has_server_rst, server_rst_packet_numbers, max_client_payload, median_interval,
  unique_ints, min_int64, max_int64,
}

abbrev pub min_cadence_window_ms : ℤ
min_cadence_window_ms = pos 90000

abbrev pub max_probe_cadence_ms : ℤ
max_probe_cadence_ms = pos 30000

abbrev pub max_probe_payload : ℤ
max_probe_payload = pos 256

abbrev pub min_probe_count : ℕ
min_probe_count = 3

pub record ProbeGroup : Type 0 where
  pub flow : Flow
  pub start_ms : List ℤ
  pub packet_nums : List ℤ
  pub total : ℕ
  pub rst : ℕ
  pub max_payload : ℤ

abbrev pub Probes : Type 0
Probes = List (Bytes × ProbeGroup)

-- The flow without its source port.
abbrev key_flow : Flow → Flow
key_flow flow = record flow { source_port = pos 0 }

-- The format %s-%s:%d/%s
unfoldable pub probe_key : Flow → Bytes
unfolding print_int
probe_key f =
    f.source_ip
    ++ (b'-' ∷ f.destination_ip ++ (b':' ∷ print_int f.destination_port ++ (b'/' ∷ f.protocol)))

abbrev pub new_probe : Flow → ProbeGroup
new_probe flow = record {
  flow = flow;
  start_ms = [];
  packet_nums = [];
  total = 0;
  rst = 0;
  max_payload = pos 0;
}

-- The updates of an entry by one flow group with its first SYN.
unfoldable pub count_probe : FlowGroup → Packet → ProbeGroup → ProbeGroup
unfolding flow_has_server_rst server_rst_packet_numbers max_client_payload
count_probe g start e =
    let payload = max_client_payload g in
    let has_rst = flow_has_server_rst g in
    record e {
      total = suc e.total;
      start_ms = e.start_ms ++ start.time_ms ∷ [];
      packet_nums =
          (e.packet_nums ++ start.number ∷ [])
          ++ (if has_rst then server_rst_packet_numbers g else []);
      rst = if has_rst then suc e.rst else e.rst;
      max_payload = if lt_ℤ e.max_payload payload then payload else e.max_payload;
    }

-- probes[key], made where it is missing, and updated
unfoldable pub update_at : Bytes → Flow → (ProbeGroup → ProbeGroup) → Probes → Probes
update_at k flow f [] = (k, f (new_probe flow)) ∷ []
update_at k flow f ((j, e) ∷ m) =
    if eq_bytes j k then (j, f e) ∷ m else (j, e) ∷ update_at k flow f m

-- A round of the first loop.
unfoldable pub add_probe : Option Scope → FlowGroup → Probes → Probes
unfolding matches_scope first_syn update_at count_probe probe_key
add_probe scope g m =
    if matches_scope g.flow scope
    then elim (first_syn g) [
      | none ↦ m
      | some start ↦
          update_at (probe_key (key_flow g.flow)) (key_flow g.flow) (count_probe g start) m
    ]
    else m

unfoldable pub collect_probes : Option Scope → Probes → List FlowGroup → Probes
unfolding add_probe
collect_probes scope m [] = m
collect_probes scope m (g ∷ gs) = collect_probes scope (add_probe scope g m) gs

-- `ratio < 0.9` on the quotient rst / total, which the division of float64 decides in the same way
-- for counts below 2^49.
abbrev pub ratio_too_low : ProbeGroup → Bool
ratio_too_low e = ltb (10 * e.rst) (9 * e.total)

unfoldable pub probe_symptom : ProbeGroup → Symptom
unfolding median_interval unique_ints min_int64 max_int64
probe_symptom entry =
    let numbers = unique_ints entry.packet_nums in
    let e =
      evidence entry.flow (length numbers) numbers (min_int64 entry.start_ms)
        (max_int64 entry.start_ms) in
    record {
      code = monitor_probe_rst;
      severity = info;
      confidence = medium;
      evidence = record e {
        probe_count = entry.total;
        probe_cadence_seconds_p50 = record {
          numerator = median_interval entry.start_ms;
          denominator = 1000;
        };
        rst_ratio = record { numerator = pos entry.rst; denominator = entry.total };
      };
    }

-- A round of the second loop.
unfoldable pub judge : ProbeGroup → Option Symptom
unfolding probe_symptom
judge e =
    if ltb e.total min_probe_count || lt_ℤ max_probe_payload e.max_payload
    then none
    else if ratio_too_low e
    then none
    else if lt_ℤ max_probe_cadence_ms (median_interval e.start_ms)
    then none
    else some (probe_symptom e)

unfoldable pub judge_all : Probes → List Symptom
unfolding judge
judge_all [] = []
judge_all ((k, e) ∷ m) = prepend (judge e) (judge_all m)

unfoldable pub detect_probes : (Probes → Probes) → List FlowGroup → Option Scope → List Symptom
unfolding collect_probes judge_all
detect_probes order groups scope = judge_all (order (collect_probes scope [] groups))
