-- ===== src/Diagnose/Handler/Tests.antt =====
-- Inputs, rows and a call of pcap_detect_symptoms, and the theorems at them.
use cute_pcap_mcp.Base.{
  Bool, true, false, List, [], ◌∷◌, Option, none, some, ◌≡◌, refl, ◌↔◌, ◌⊎◌, length,
}
use cute_pcap_mcp.Base.Text.{Bytes, codes, eq_bytes, trim_space, is_empty, contains}
use cute_pcap_mcp.Base.Text.Atoi.{atoi}
use cute_pcap_mcp.Base.Int.{ℤ, pos}
use cute_pcap_mcp.Errors.{ok}
use cute_pcap_mcp.Config.{Config}
use cute_pcap_mcp.Artifact.{found}
use cute_pcap_mcp.Server.{Semaphore}
use cute_pcap_mcp.Diagnose.{Flow, Scope}
use cute_pcap_mcp.Diagnose.Flows.{is_groupable, matches_scope}
use cute_pcap_mcp.Diagnose.Rows.{packet_of, field}
use cute_pcap_mcp.Diagnose.Rows.Laws.{column, names_tcp, packet_of-groupable}
use cute_pcap_mcp.Diagnose.Input.{validate_scope, Input, validate_input}
use cute_pcap_mcp.Diagnose.Input.Laws.{IsAccepted, validate_input_iff, matches_scope-blank}
use cute_pcap_mcp.Diagnose.Handler.{Environment, diagnose_handler}
use cute_pcap_mcp.Diagnose.Handler.Laws.{IsDone, diagnose_handler-IsDone}

code : Unit {0}
unfolding packet_of is_groupable contains eq_bytes diagnose_handler matches_scope trim_space atoi
code = tt

-- A row with TCP ports and the protocol column `label`.
abbrev row : Bytes → List Bytes
row label =
    codes "1"
    ∷ codes "0.5"
    ∷ codes "60"
    ∷ codes "60"
    ∷ []
    ∷ []
    ∷ codes "10.0.0.1"
    ∷ []
    ∷ codes "40000"
    ∷ []
    ∷ codes "10.0.0.2"
    ∷ []
    ∷ codes "25"
    ∷ []
    ∷ label
    ∷ []

abbrev no_time : Bytes → Option ℤ
no_time s = none

tls_row_is_grouped : is_groupable (packet_of no_time (row (codes "TLSv1.2"))) ≡ true
unfolding code
tls_row_is_grouped = refl

smtp_row_is_dropped : is_groupable (packet_of no_time (row (codes "SMTP"))) ≡ false
unfolding code
smtp_row_is_dropped = refl

packet_of-groupable_example :
    (is_empty (field (row (codes "TLSv1.2")) 14) ≡ true)
    ⊎ (names_tcp (column (row (codes "TLSv1.2"))) ≡ true)
packet_of-groupable_example = packet_of-groupable no_time (row (codes "TLSv1.2")) tls_row_is_grouped

abbrev anything : Bytes → Bool
anything s = true

abbrev blank_scope : Scope
blank_scope = record {
  source_ip = codes " ";
  destination_ip = [];
  source_port = none;
  destination_port = none;
  protocol = codes "TCP";
}

abbrev input : Input
input = record {
  path = codes "link";
  expected_sha256 = [];
  expected_size_bytes = some (pos 5);
  scope = some blank_scope;
  symptom_filter = codes "monitor_probe_returns_rst" ∷ [];
}

validate_input_iff_example : (validate_input anything input ≡ none) ↔ IsAccepted anything input
validate_input_iff_example = validate_input_iff anything input

abbrev flow : Flow
flow = record {
  source_ip = codes "10.0.0.1";
  destination_ip = codes "10.0.0.2";
  source_port = pos 40000;
  destination_port = pos 443;
  protocol = codes "tcp";
}

matches_scope-blank_example :
    (validate_scope anything (some blank_scope)
      ≡ validate_scope anything (some (record blank_scope { source_ip = [] })))
    × (matches_scope flow (some blank_scope) ≡ false)
unfolding code
matches_scope-blank_example = matches_scope-blank anything blank_scope flow refl refl refl

-- The file system of one capture, whose rows the reader gives.
abbrev env : Environment
env = record {
  is_address = anything;
  absolute = λ text. found (text ∷ []);
  eval_symlinks = λ p. found (codes "pcaps" ∷ p);
  stat = λ p. found (record { size = pos 5; is_regular = true });
  read = λ p. found (codes "hello");
  sha256_hex = λ content. codes "ab";
  tshark = λ a. ok ([], false);
  read_all = λ out. some ([] ∷ row (codes "TCP") ∷ []);
  milliseconds = no_time;
  order = λ m. m;
}

abbrev config : Config
config = record {
  allowed_artifact_dirs = (codes "pcaps" ∷ []) ∷ [];
  workspace = record {
    root = none;
    pcap_dir = none;
    output_dir = none;
    tmp_dir = none;
    keylog_dir = none;
  };
  analysis = record {
    command_timeout_seconds = pos 20;
    max_stdout_bytes = pos 200000;
    max_packet_rows = pos 200;
    max_ascii_strings = pos 200;
    max_ascii_bytes = pos 200000;
    max_zeek_records_per_log = pos 100;
    max_pcap_bytes = pos 65536;
    max_concurrent_analyses = pos 2;
    tmp_disk_budget_bytes = pos 1048576;
    output_disk_budget_bytes = pos 1048576;
  };
}

abbrev free : Semaphore
free = record { capacity = 2; in_use = 1 }

diagnose_handler-IsDone_example :
    IsDone env config input free (diagnose_handler env config input free)
diagnose_handler-IsDone_example = diagnose_handler-IsDone env config input free

one_finding : length (diagnose_handler env config input free).0.findings ≡ 1
unfolding code
one_finding = refl
