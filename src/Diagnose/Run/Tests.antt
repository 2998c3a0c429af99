-- ===== src/Diagnose/Run/Tests.antt =====
-- The theorems on the detectors and on a whole run, at small captures.
use cute_pcap_mcp.Base.{true, List, [], ◌∷◌, none, some, ◌≡◌, refl, ◌↔◌, All, arith, length}
use mathlib.Core.List.Permᴰ as P
use cute_pcap_mcp.Diagnose.Capture.{
  opening, confirmed, refusal, capture, group, silent_group, refused_from,
}
use cute_pcap_mcp.Base.Text.{eq_bytes, lt_bytes}
use cute_pcap_mcp.Base.Text.Decimal.{decimal}
use cute_pcap_mcp.Diagnose.{Packet, FlowGroup, Symptom}
use cute_pcap_mcp.Diagnose.Flows.{group_of, direction}
use cute_pcap_mcp.Diagnose.Resets.{detect_reset, handshake, no_handshake, reset_symptom, no_bytes}
use cute_pcap_mcp.Diagnose.Resets.Laws.{Shows, steps, is_found, handshake-Shows}
use cute_pcap_mcp.Diagnose.Resets.Silence.{HasLengths, IsSilentReset, detect_reset_iff}
use cute_pcap_mcp.Diagnose.Probes.{detect_probes}
use cute_pcap_mcp.Diagnose.Probes.Laws.{IsProbeSymptom, detect_probes-All}
use cute_pcap_mcp.Diagnose.Paths.{judge_path, unanswered}
use cute_pcap_mcp.Diagnose.Paths.Laws.{IsLabelled, Explains, judge_path-some}
use cute_pcap_mcp.Diagnose.Run.{diagnose, enabled_symptoms}
use cute_pcap_mcp.Diagnose.Run.Laws.{IsSound, diagnose-IsSound}

code : Unit {0}
unfolding diagnose enabled_symptoms group_of direction eq_bytes lt_bytes decimal detect_reset
    judge_path handshake detect_probes
code = tt

handshake-Shows_example :
    (is_found (handshake group.flow no_handshake group.packets).rst ≡ true)
    ↔ Shows (steps group.flow) group.packets
handshake-Shows_example = handshake-Shows group.flow group.packets

abbrev reset_found : Symptom
reset_found = reset_symptom silent_group opening confirmed refusal no_bytes

silent_lengths : HasLengths silent_group.packets
unfolding code
silent_lengths = record { natural = (refl, (refl, (refl, (refl, tt)))); fits = omega arith }

detect_reset_iff_example :
    (detect_reset silent_group ≡ some reset_found) ↔ IsSilentReset silent_group reset_found
detect_reset_iff_example = detect_reset_iff silent_group reset_found silent_lengths

is_reported : detect_reset silent_group ≡ some reset_found
unfolding code
is_reported = refl

-- Three refused connections.
abbrev probes : List FlowGroup
probes = refused_from 40001 0 ∷ refused_from 40002 10000 ∷ refused_from 40003 20000 ∷ []

detect_probes-All_example : All (IsProbeSymptom none probes) (detect_probes (λ m. m) probes none)
detect_probes-All_example = detect_probes-All (λ m. m) probes none (λ m. P.refl m)

one_probe_symptom : length (detect_probes (λ m. m) probes none) ≡ 1
unfolding code
one_probe_symptom = refl

abbrev unanswered_group : FlowGroup
unanswered_group = group_of (opening ∷ [])

path_found : judge_path none unanswered_group ≡ some (unanswered unanswered_group opening)
unfolding code
path_found = refl

judge_path-some_example :
    (syn : Packet) × IsLabelled none unanswered_group syn
    × Explains unanswered_group syn (unanswered unanswered_group opening)
judge_path-some_example =
    judge_path-some none unanswered_group (unanswered unanswered_group opening) path_found

diagnose-IsSound_example :
    All
      (IsSound (enabled_symptoms []) capture)
      (diagnose (λ m. m) capture (enabled_symptoms []) none).symptoms
diagnose-IsSound_example = diagnose-IsSound (λ m. m) capture (enabled_symptoms []) none

one_finding : length (diagnose (λ m. m) capture (enabled_symptoms []) none).findings ≡ 1
unfolding code
one_finding = refl
