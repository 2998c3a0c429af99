-- ===== src/Diagnose/Handler.antt =====
-- The handler of pcap_detect_symptoms: `diagnoseHandler` and `runDiagnosePacketRows` of
-- internal/pcap/diagnose.go. The parameter `tshark` is the run of the analyzer on a file, with what it
-- printed and whether it complained of a truncated capture; logging is left out. The handler takes
-- the semaphore of the server and gives it back, as the deferred release leaves it.
pub mod Laws
mod Tests
use cute_pcap_mcp.Base.{
  ℕ, suc, ◌+◌, ◌-◌, ◌*◌, ◌<◌, ◌≤◌, Bool, true, false, not, ◌&&◌, ◌||◌, List, [], ◌∷◌, ◌++◌, map,
  Option, none, some, ◌≡◌, refl, sym, ap, ◌∙◌, ◌↔◌, ◌⊎◌, inl, inr, ltb, leb, ◌==◌, if◌then◌else◌,
  All, All-append, arith, Bool-cases, Option-cases, some_eq, length, any, all,
}
use cute_pcap_mcp.Base.Text.{Bytes, codes}
use cute_pcap_mcp.Base.Int.{ℤ, pos}
use cute_pcap_mcp.Errors.{Err, Result, ok, failed, then_do}
use cute_pcap_mcp.FilePaths.{FilePath}
use cute_pcap_mcp.Config.{Config}
use cute_pcap_mcp.Artifact.{Lookup, FileInfo, ArtifactInfo, Expectations, inspect_artifact}
use cute_pcap_mcp.Server.{Semaphore, acquire_slot, release_slot}
use cute_pcap_mcp.Diagnose.{Packet, Symptom, Finding, capture_truncated, info}
use cute_pcap_mcp.Diagnose.Rows.{parse_packet_rows, packets_contain_truncation}
use cute_pcap_mcp.Diagnose.Probes.{Probes}
use cute_pcap_mcp.Diagnose.Run.{Diagnosis, diagnose, enabled_symptoms}
use cute_pcap_mcp.Diagnose.Input.{Input, validate_input, finding_for_error, analyzer_finding}

pub record Output : Type 0 where
  pub artifact : Option ArtifactInfo
  pub symptoms : List Symptom
  pub findings : List Finding

abbrev pub no_output : Output
no_output = record { artifact = none; symptoms = []; findings = [] }

abbrev pub with_finding : Finding → Output → Output
with_finding f out = record out { findings = out.findings ++ f ∷ [] }

abbrev truncation_finding : Finding
truncation_finding = record {
  code = capture_truncated;
  severity = info;
  detail = codes "capture truncation observed by packet metadata or analyzer diagnostic";
}

-- What the handler depends on.
pub record Environment : Type 0 where
  pub is_address : Bytes → Bool
  pub absolute : Bytes → Lookup FilePath
  pub eval_symlinks : FilePath → Lookup FilePath
  pub stat : FilePath → Lookup FileInfo
  pub read : FilePath → Lookup Bytes
  pub sha256_hex : Bytes → Bytes
  pub tshark : ArtifactInfo → Result (Bytes × Bool)
  pub read_all : Bytes → Option (List (List Bytes))
  pub milliseconds : Bytes → Option ℤ
  pub order : Probes → Probes

module _ (env : Environment) (cfg : Config) where
  -- `runDiagnosePacketRows`
  unfoldable pub run_packet_rows : ArtifactInfo → Result (List Packet × Bool)
  unfolding parse_packet_rows then_do
  run_packet_rows a = then_do (env.tshark a) (λ out.
      then_do (parse_packet_rows env.milliseconds env.read_all out.0)
        (λ packets. ok (packets, out.1)))

  -- The rest of the handler, after the packets are read.
  unfoldable pub report : Input → Output → List Packet → Bool → Output
  unfolding diagnose enabled_symptoms packets_contain_truncation
  report i out packets cut =
      let noted =
        if cut || packets_contain_truncation packets
        then with_finding truncation_finding out
        else out in
      let d = diagnose env.order packets (enabled_symptoms i.symptom_filter) i.scope in
      record noted {
        symptoms = noted.symptoms ++ d.symptoms;
        findings = noted.findings ++ d.findings;
      }

  abbrev pub after_rows : Input → Output → Result (List Packet × Bool) → Output
  after_rows i out (failed e) = with_finding (analyzer_finding e) out
  after_rows i out (ok (packets, cut)) = report i out packets cut

  abbrev pub after_slot :
      Input → ArtifactInfo → Output → Semaphore → Result Semaphore → Output × Semaphore
  after_slot i a out s (failed e) = (with_finding (analyzer_finding e) out, s)
  after_slot i a out s (ok taken) = (after_rows i out (run_packet_rows a), release_slot taken)

  abbrev pub after_inspection : Input → Semaphore → Result ArtifactInfo → Output × Semaphore
  after_inspection i s (failed e) = (with_finding (finding_for_error e) no_output, s)
  after_inspection i s (ok a) =
      after_slot i a (record no_output { artifact = some a }) s (acquire_slot s)

  abbrev pub inspect : Input → Result ArtifactInfo
  inspect i =
      inspect_artifact env.absolute env.eval_symlinks env.stat env.read env.sha256_hex i.path cfg
        (record { sha256 = i.expected_sha256; size_bytes = i.expected_size_bytes })

  abbrev pub after_validation : Input → Semaphore → Option Err → Output × Semaphore
  after_validation i s (some e) = (with_finding (finding_for_error e) no_output, s)
  after_validation i s none = after_inspection i s (inspect i)

  unfoldable pub diagnose_handler : Input → Semaphore → Output × Semaphore
  unfolding validate_input finding_for_error analyzer_finding inspect_artifact acquire_slot
      release_slot run_packet_rows report
  diagnose_handler i s = after_validation i s (validate_input env.is_address i)
