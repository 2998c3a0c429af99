-- ===== src/Diagnose/Handler/Laws.antt =====
-- What a call of pcap_detect_symptoms returns, and that it gives its slot back.
use mathlib.Core.Path.{subst}
use cute_pcap_mcp.Base.{
  ◌≢◌, suc, ◌-◌, Bool, ◌||◌, List, [], ◌∷◌, ◌++◌, Option, none, some, ◌≡◌, refl, sym, ap, ◌∙◌, ◌⊎◌,
  inl, inr, ltb, All, arith, Bool-cases,
}
use cute_pcap_mcp.Errors.Laws.{ok_eq}
use cute_pcap_mcp.Errors.{Err, Result, ok, failed}
use cute_pcap_mcp.Config.{Config}
use cute_pcap_mcp.Artifact.{ArtifactInfo}
use cute_pcap_mcp.Server.{Semaphore, acquire_slot, release_slot}
use cute_pcap_mcp.Diagnose.{Packet, Finding}
use cute_pcap_mcp.Diagnose.Run.{enabled_symptoms, diagnose}
use cute_pcap_mcp.Diagnose.Run.Laws.{IsSound, diagnose-IsSound}
use cute_pcap_mcp.Diagnose.Input.{Input, validate_input, finding_for_error, analyzer_finding}
use cute_pcap_mcp.Diagnose.Handler.{
  packets_contain_truncation, Environment, Output, no_output, run_packet_rows, report, after_rows,
  after_slot, after_inspection, inspect, after_validation, diagnose_handler,
}

failed_not_ok : {A : Type 0} {a : A} {e : Err} → failed e ≢ ok a
failed_not_ok p = cc

module _ (env : Environment) (cfg : Config) where
  -- A report with a symptom comes from an accepted input, an inspected artifact and packets that the
  -- analyzer printed for it, and every symptom is sound for these packets.
  pub record IsReport (i : Input) (out : Output) : Type 0 where
    pub accepted : validate_input env.is_address i ≡ none
    pub artifact : ArtifactInfo
    pub inspected : inspect env cfg i ≡ ok artifact
    pub packets : List Packet
    pub cut : Bool
    pub rows : run_packet_rows env cfg artifact ≡ ok (packets, cut)
    pub sound : All (IsSound (enabled_symptoms i.symptom_filter) packets) out.symptoms

  -- Either nothing is reported, and a finding says why, or there is a report.
  abbrev pub IsAnswer : Input → Output → Type 0
  IsAnswer i out = ((out.symptoms ≡ []) × (out.findings ≢ [])) ⊎ IsReport i out

  append_some : (fs : List Finding) (f : Finding) → fs ++ f ∷ [] ≢ []
  append_some [] f = λ e. cc
  append_some (g ∷ fs) f = λ e. cc

  released : (s t : Semaphore) → acquire_slot s ≡ ok t → release_slot t ≡ s
  unfolding acquire_slot release_slot
  released s t e = elim (Bool-cases (ltb s.in_use s.capacity)) [
    | inl h ↦
        let same = ok_eq (rw h at e) in
        let back : suc s.in_use - 1 ≡ s.in_use = omega arith in
        ap release_slot (sym same) ∙ (λ i. record { capacity = s.capacity; in_use = back i })
    | inr h ↦ absurd (failed_not_ok (rw h at e))
  ]

  symptoms-report :
      (i : Input) (out : Output) (packets : List Packet) (cut : Bool)
      → (report env cfg i out packets cut).symptoms
        ≡ out.symptoms
          ++ (diagnose env.order packets (enabled_symptoms i.symptom_filter) i.scope).symptoms
  unfolding report
  symptoms-report i out packets cut =
      elim (Bool-cases (cut || packets_contain_truncation packets)) [
        | inl h ↦ rw h refl
        | inr h ↦ rw h refl
      ]

  after_rows-IsAnswer :
      (i : Input) (a : ArtifactInfo) (out : Output)
      → validate_input env.is_address i ≡ none
      → inspect env cfg i ≡ ok a
      → out.symptoms ≡ []
      → (r : Result (List Packet × Bool)) → run_packet_rows env cfg a ≡ r
      → IsAnswer i (after_rows env cfg i out r)
  after_rows-IsAnswer i a out v n s (failed e) q =
      inl (s, append_some out.findings (analyzer_finding e))
  after_rows-IsAnswer i a out v n s (ok (packets, cut)) q = inr (record {
    accepted = v;
    artifact = a;
    inspected = n;
    packets = packets;
    cut = cut;
    rows = q;
    sound =
        subst (All (IsSound (enabled_symptoms i.symptom_filter) packets))
          (sym (
            symptoms-report i out packets cut
            ∙ ap
                (λ ss.
                  ss
                  ++ (diagnose env.order packets (enabled_symptoms i.symptom_filter)
                      i.scope).symptoms)
                s))
          (diagnose-IsSound env.order packets (enabled_symptoms i.symptom_filter) i.scope);
  })

  -- An answer, with the semaphore as it was.
  abbrev pub IsDone : Input → Semaphore → Output × Semaphore → Type 0
  IsDone i s r = IsAnswer i r.0 × (r.1 ≡ s)

  after_slot-IsDone :
      (i : Input) (a : ArtifactInfo) (out : Output) (s : Semaphore)
      → validate_input env.is_address i ≡ none
      → inspect env cfg i ≡ ok a
      → out.symptoms ≡ []
      → (r : Result Semaphore) → acquire_slot s ≡ r
      → IsDone i s (after_slot env cfg i a out s r)
  after_slot-IsDone i a out s v n e (failed x) q =
      (inl (e, append_some out.findings (analyzer_finding x)), refl)
  after_slot-IsDone i a out s v n e (ok t) q =
      (after_rows-IsAnswer i a out v n e (run_packet_rows env cfg a) refl, released s t q)

  after_inspection-IsDone :
      (i : Input) (s : Semaphore)
      → validate_input env.is_address i ≡ none
      → (r : Result ArtifactInfo) → inspect env cfg i ≡ r
      → IsDone i s (after_inspection env cfg i s r)
  after_inspection-IsDone i s v (failed x) q =
      (inl (refl, append_some [] (finding_for_error x)), refl)
  after_inspection-IsDone i s v (ok a) q =
      after_slot-IsDone i a (record no_output { artifact = some a }) s v q refl (acquire_slot s)
        refl

  after_validation-IsDone :
      (i : Input) (s : Semaphore) (r : Option Err)
      → validate_input env.is_address i ≡ r
      → IsDone i s (after_validation env cfg i s r)
  after_validation-IsDone i s (some x) q = (inl (refl, append_some [] (finding_for_error x)), refl)
  after_validation-IsDone i s none q = after_inspection-IsDone i s q (inspect env cfg i) refl

  -- A call either reports no symptom and a finding, or the sound symptoms of the packets of an
  -- accepted and inspected capture, and on every branch the semaphore is as it was before.
  pub diagnose_handler-IsDone :
      (i : Input) (s : Semaphore) → IsDone i s (diagnose_handler env cfg i s)
  unfolding diagnose_handler
  diagnose_handler-IsDone i s = after_validation-IsDone i s (validate_input env.is_address i) refl
