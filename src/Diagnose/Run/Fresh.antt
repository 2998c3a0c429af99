-- ===== src/Diagnose/Run/Fresh.antt =====
-- What the symptoms of each detector have in common.
use cute_pcap_mcp.Base.{
  Bool, true, false, List, [], ◌∷◌, Option, some, ◌≡◌, refl, sym, inl, inr, All,
}
use mathlib.Core.Path.{subst}
use cute_pcap_mcp.Diagnose.{
  FlowGroup, Scope, Symptom, SymptomCode, Confidence, low, tls_on_plain_port, rst_after_synack,
  monitor_probe_rst, asymmetric_path, Flow,
}
use cute_pcap_mcp.Diagnose.Windows.Laws.{All-prepend}
use cute_pcap_mcp.Diagnose.Windows.Unique.{
  IsStrict, packet_numbers-AreNumbers, unique_ints-IsStrict,
}
use cute_pcap_mcp.Diagnose.Tls.{detect_tls, tls_symptom, responder, find_response}
use cute_pcap_mcp.Diagnose.Windows.{packets_between}
use cute_pcap_mcp.Diagnose.Tls.Laws.{detect_tls-some}
use cute_pcap_mcp.Diagnose.Resets.{
  detect_reset, reset_symptom, handshake, no_handshake, silent_reset, app_bytes, no_bytes,
}
use cute_pcap_mcp.Diagnose.Resets.Silence.{decide_reset-some, if_silent-some}
use cute_pcap_mcp.Diagnose.Probes.{
  ProbeGroup, Probes, probe_symptom, judge, judge_all, detect_probes, collect_probes,
}
use cute_pcap_mcp.Diagnose.Probes.Laws.{judge-some}
use cute_pcap_mcp.Diagnose.Paths.{judge_path, detect_paths, unanswered, answered_elsewhere}
use cute_pcap_mcp.Diagnose.Paths.Laws.{judge_path-some}

abbrev pub is_low : Confidence → Bool
is_low low = true
is_low _ = false

-- A symptom with the code `c`, not yet downgraded, that names a flow and ascending packets.
pub record IsFresh (c : SymptomCode) (s : Symptom) : Type 0 where
  pub code : s.code ≡ c
  pub confident : is_low s.confidence ≡ false
  pub names_flow : (flow : Flow) × (s.evidence.flow ≡ some flow)
  pub ascending : IsStrict s.evidence.packet_numbers

pub detect_tls-IsFresh :
    (g : FlowGroup) (s : Symptom) → detect_tls g ≡ some s → IsFresh tls_on_plain_port s
unfolding tls_symptom
detect_tls-IsFresh g s e =
    let (hello, why, same) = detect_tls-some g s e in
    subst (IsFresh tls_on_plain_port) (sym same) (record {
      code = refl;
      confident = refl;
      names_flow = (g.flow, refl);
      ascending =
          (packet_numbers-AreNumbers (
            packets_between g.packets hello
              (responder (find_response g.flow hello g.packets)))).strict;
    })

pub detect_reset-IsFresh :
    (g : FlowGroup) (s : Symptom) → detect_reset g ≡ some s → IsFresh rst_after_synack s
unfolding detect_reset silent_reset reset_symptom
detect_reset-IsFresh g s e =
    let h = handshake g.flow no_handshake g.packets in
    let (p, q, r, t, a, b, c, d, z) = decide_reset-some g h.syn h.synack h.ack h.rst s e in
    let (silent, same) = if_silent-some g p r t (app_bytes g.flow r t no_bytes g.packets) s z in
    subst (IsFresh rst_after_synack) (sym same) (record {
      code = refl;
      confident = refl;
      names_flow = (g.flow, refl);
      ascending = (packet_numbers-AreNumbers (packets_between g.packets p (some t))).strict;
    })

judge-IsFresh : (e : ProbeGroup) (s : Symptom) → judge e ≡ some s → IsFresh monitor_probe_rst s
unfolding probe_symptom
judge-IsFresh e s h =
    let (enough, mostly, cadence, same) = judge-some e s h in
    subst (IsFresh monitor_probe_rst) (sym same) (record {
      code = refl;
      confident = refl;
      names_flow = (e.flow, refl);
      ascending = unique_ints-IsStrict e.packet_nums;
    })

judge_all-IsFresh : (m : Probes) → All (IsFresh monitor_probe_rst) (judge_all m)
unfolding judge_all
judge_all-IsFresh [] = tt
judge_all-IsFresh ((k, e) ∷ m) =
    All-prepend (IsFresh monitor_probe_rst) (judge e) (judge_all m) (judge-IsFresh e)
      (judge_all-IsFresh m)

pub detect_probes-IsFresh :
    (order : Probes → Probes) (gs : List FlowGroup) (scope : Option Scope)
    → All (IsFresh monitor_probe_rst) (detect_probes order gs scope)
unfolding detect_probes
detect_probes-IsFresh order gs scope = judge_all-IsFresh (order (collect_probes scope [] gs))

judge_path-IsFresh :
    (scope : Option Scope) (g : FlowGroup) (s : Symptom)
    → judge_path scope g ≡ some s
    → IsFresh asymmetric_path s
unfolding unanswered answered_elsewhere
judge_path-IsFresh scope g s e =
    let (syn, labelled, why) = judge_path-some scope g s e in
    elim why [
      | inl (silent, same) ↦ subst (IsFresh asymmetric_path) (sym same) (record {
        code = refl;
        confident = refl;
        names_flow = (g.flow, refl);
        ascending = (packet_numbers-AreNumbers (syn ∷ [])).strict;
      })
      | inr (reply, first, same) ↦ subst (IsFresh asymmetric_path) (sym same) (record {
        code = refl;
        confident = refl;
        names_flow = (g.flow, refl);
        ascending = (packet_numbers-AreNumbers (packets_between g.packets syn (some reply))).strict;
      })
    ]

pub detect_paths-IsFresh :
    (gs : List FlowGroup) (scope : Option Scope)
    → All (IsFresh asymmetric_path) (detect_paths gs scope)
unfolding detect_paths
detect_paths-IsFresh [] scope = tt
detect_paths-IsFresh (g ∷ gs) scope =
    All-prepend (IsFresh asymmetric_path) (judge_path scope g) (detect_paths gs scope)
      (judge_path-IsFresh scope g) (detect_paths-IsFresh gs scope)
