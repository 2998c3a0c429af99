-- ===== src/Diagnose/Run/Laws.antt =====
-- What a whole run reports.
use cute_pcap_mcp.Base.{
  Bool, true, false, not, ◌&&◌, List, [], ◌∷◌, ◌++◌, map, Option, none, some, ◌≡◌, refl, sym, ◌∙◌,
  inl, inr, All, All-append, arith, Bool-cases,
}
use cute_pcap_mcp.Base.Sort.{sort-All, IsSorted, IsWeakOrder, sort-IsSorted}
use cute_pcap_mcp.Base.Int.{lt_ℤ}
use cute_pcap_mcp.Diagnose.{
  Finding, Packet, Flow, FlowGroup, Scope, Symptom, SymptomCode, tls_on_plain_port,
  rst_after_synack, monitor_probe_rst, asymmetric_path,
}
use cute_pcap_mcp.Diagnose.Flows.{flow_groups, matches_scope}
use cute_pcap_mcp.Diagnose.Windows.{capture_duration_ms, capture_has_interface_metadata}
use cute_pcap_mcp.Diagnose.Windows.Unique.{IsStrict}
use cute_pcap_mcp.Diagnose.Tls.{detect_tls}
use cute_pcap_mcp.Diagnose.Resets.{detect_reset}
use cute_pcap_mcp.Diagnose.Probes.{Probes, detect_probes, min_cadence_window_ms}
use cute_pcap_mcp.Diagnose.Paths.{detect_paths}
use cute_pcap_mcp.Diagnose.Run.{
  interface_finding, downgrade, any_truncated, window_finding, Enabled, Diagnosis, add_if,
  flow_symptoms, with_probes, with_paths, symptom_less, diagnose,
}
use cute_pcap_mcp.Diagnose.Run.Fresh.{
  is_low, IsFresh, detect_tls-IsFresh, detect_reset-IsFresh, detect_probes-IsFresh,
  detect_paths-IsFresh,
}

symptom_less-IsWeakOrder : IsWeakOrder symptom_less
unfolding symptom_less
symptom_less-IsWeakOrder = record {
  asym = λ a b h. ground arith;
  trans = λ a b c h k. ground arith;
}

-- The diagnosis before the confidences are lowered and the symptoms are sorted.
detected : (Probes → Probes) → List Packet → Enabled → Option Scope → Diagnosis
detected order packets on scope =
    let groups = flow_groups packets in
    let found : Diagnosis = record { symptoms = flow_symptoms on scope [] groups; findings = [] } in
    with_paths on scope packets groups (with_probes order on scope packets groups found)

-- The symptoms of a run are sorted by the rank of their code and then by their first time.
pub diagnose-IsSorted :
    (order : Probes → Probes) (packets : List Packet) (on : Enabled) (scope : Option Scope)
    → IsSorted symptom_less (diagnose order packets on scope).symptoms
unfolding diagnose detected
diagnose-IsSorted order packets on scope =
    sort-IsSorted symptom_less-IsWeakOrder
      (map (downgrade packets) (detected order packets on scope).symptoms)

-- A symptom of an enabled code, that names a flow and ascending packets.
pub record IsReported (on : Enabled) (s : Symptom) : Type 0 where
  pub enabled : on s.code ≡ true
  pub confident : is_low s.confidence ≡ false
  pub names_flow : (flow : Flow) × (s.evidence.flow ≡ some flow)
  pub ascending : IsStrict s.evidence.packet_numbers

module _ (on : Enabled) where
  fresh-IsReported : (c : SymptomCode) (s : Symptom) → on c ≡ true → IsFresh c s → IsReported on s
  fresh-IsReported c s h f = record {
    enabled = rw f.code h;
    confident = f.confident;
    names_flow = f.names_flow;
    ascending = f.ascending;
  }

  All-fresh :
      (c : SymptomCode) (ss : List Symptom)
      → on c ≡ true
      → All (IsFresh c) ss
      → All (IsReported on) ss
  All-fresh c [] h f = tt
  All-fresh c (s ∷ ss) h (f, fs) = (fresh-IsReported c s h f, All-fresh c ss h fs)

  add_if-IsReported :
      (c : SymptomCode) (b : Bool) (o : Option Symptom) (acc : List Symptom)
      → on c ≡ b
      → ((s : Symptom) → o ≡ some s → IsFresh c s)
      → All (IsReported on) acc
      → All (IsReported on) (add_if b o acc)
  add_if-IsReported c false o acc h f a = a
  add_if-IsReported c true none acc h f a = a
  add_if-IsReported c true (some s) acc h f a =
      All-append (IsReported on) acc (s ∷ []) a (fresh-IsReported c s h (f s refl), tt)

  flow_symptoms-IsReported :
      (scope : Option Scope) (acc : List Symptom) (gs : List FlowGroup)
      → All (IsReported on) acc
      → All (IsReported on) (flow_symptoms on scope acc gs)
  unfolding flow_symptoms
  flow_symptoms-IsReported scope acc [] h = h
  flow_symptoms-IsReported scope acc (g ∷ gs) h = elim (Bool-cases (matches_scope g.flow scope)) [
    | inr out ↦ rw out (flow_symptoms-IsReported scope acc gs h)
    | inl within ↦
        let acc' = add_if (on tls_on_plain_port) (detect_tls g) acc in
        rw within (
          flow_symptoms-IsReported scope (add_if (on rst_after_synack) (detect_reset g) acc') gs (
            add_if-IsReported rst_after_synack (on rst_after_synack) (detect_reset g) acc' refl
              (detect_reset-IsFresh g)
              (add_if-IsReported tls_on_plain_port (on tls_on_plain_port) (detect_tls g) acc refl
                (detect_tls-IsFresh g) h)))
  ]

  with_probes-IsReported :
      (order : Probes → Probes) (scope : Option Scope) (packets : List Packet) (gs : List FlowGroup)
      (d : Diagnosis)
      → All (IsReported on) d.symptoms
      → All (IsReported on) (with_probes order on scope packets gs d).symptoms
  unfolding with_probes
  with_probes-IsReported order scope packets gs d h = elim (Bool-cases (on monitor_probe_rst)) [
    | inr e ↦ rw e h
    | inl e ↦ elim (Bool-cases (lt_ℤ (capture_duration_ms packets) min_cadence_window_ms)) [
      | inl short ↦ rw (e, short) h
      | inr long ↦
          rw (e, long)
            (All-append (IsReported on) d.symptoms (detect_probes order gs scope) h (
              All-fresh monitor_probe_rst (detect_probes order gs scope) e
                (detect_probes-IsFresh order gs scope)))
    ]
  ]

  with_paths-IsReported :
      (scope : Option Scope) (packets : List Packet) (gs : List FlowGroup) (d : Diagnosis)
      → All (IsReported on) d.symptoms
      → All (IsReported on) (with_paths on scope packets gs d).symptoms
  unfolding with_paths
  with_paths-IsReported scope packets gs d h = elim (Bool-cases (on asymmetric_path)) [
    | inr e ↦ rw e h
    | inl e ↦ elim (Bool-cases (capture_has_interface_metadata packets)) [
      | inr missing ↦ rw (e, missing) h
      | inl present ↦
          rw (e, present)
            (All-append (IsReported on) d.symptoms (detect_paths gs scope) h
              (All-fresh asymmetric_path (detect_paths gs scope) e (detect_paths-IsFresh gs scope)))
    ]
  ]

-- A symptom of the result. Its confidence is low exactly where it cites a truncated packet.
pub record IsSound (on : Enabled) (packets : List Packet) (s : Symptom) : Type 0 where
  pub enabled : on s.code ≡ true
  pub names_flow : (flow : Flow) × (s.evidence.flow ≡ some flow)
  pub ascending : IsStrict s.evidence.packet_numbers
  pub confidence : is_low s.confidence ≡ any_truncated packets s.evidence.packet_numbers

downgrade-IsSound :
    (on : Enabled) (packets : List Packet) (s : Symptom)
    → IsReported on s
    → IsSound on packets (downgrade packets s)
unfolding downgrade
downgrade-IsSound on packets s h =
    elim (Bool-cases (any_truncated packets s.evidence.packet_numbers)) [
      | inl e ↦ rw e (record {
        enabled = h.enabled;
        names_flow = h.names_flow;
        ascending = h.ascending;
        confidence = sym e;
      })
      | inr e ↦ rw e (record {
        enabled = h.enabled;
        names_flow = h.names_flow;
        ascending = h.ascending;
        confidence = h.confident ∙ sym e;
      })
    ]

-- Every symptom of a run has an enabled code, names a flow and cites strictly ascending packet
-- numbers, and its confidence is low exactly if one of these is the number of a truncated packet.
pub diagnose-IsSound :
    (order : Probes → Probes) (packets : List Packet) (on : Enabled) (scope : Option Scope)
    → All (IsSound on packets) (diagnose order packets on scope).symptoms
unfolding diagnose
diagnose-IsSound order packets on scope =
    let groups = flow_groups packets in
    let found : Diagnosis = record { symptoms = flow_symptoms on scope [] groups; findings = [] } in
    let d = with_probes order on scope packets groups found in
    sort-All symptom_less (IsSound on packets)
      (map (downgrade packets) (with_paths on scope packets groups d).symptoms)
      (go (with_paths on scope packets groups d).symptoms (
        with_paths-IsReported on scope packets groups d (
          with_probes-IsReported on order scope packets groups found
            (flow_symptoms-IsReported on scope [] groups tt))))
  where
    go :
        (ss : List Symptom)
        → All (IsReported on) ss
        → All (IsSound on packets) (map (downgrade packets) ss)
    go [] h = tt
    go (s ∷ ss) (h, hs) = (downgrade-IsSound on packets s h, go ss hs)

abbrev pub only_if : Bool → Finding → List Finding
only_if true f = f ∷ []
only_if false f = []

-- A run notes a short window exactly if the probe symptom is enabled and the capture is shorter than
-- 90 s, and missing interfaces exactly if the path symptom is enabled and the capture has none.
pub findings-diagnose :
    (order : Probes → Probes) (packets : List Packet) (on : Enabled) (scope : Option Scope)
    → (diagnose order packets on scope).findings
      ≡ only_if
          (on monitor_probe_rst && lt_ℤ (capture_duration_ms packets) min_cadence_window_ms)
          window_finding
        ++ only_if
            (on asymmetric_path && not (capture_has_interface_metadata packets))
            interface_finding
unfolding diagnose with_probes with_paths
findings-diagnose order packets on scope = ground arith
