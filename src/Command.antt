-- ===== src/Command.antt =====
-- Runs of the external analyzers: `runAnalyzerCommandWithEnv`, `runAnalyzerCommandTolerant` and their
-- helpers in internal/pcap/analyzer.go, `limitedBuffer` of internal/pcap/server.go. A run of a program is
-- given by what it writes and how it ends; none stands for a program that is not on the PATH.
pub mod Laws
mod Tests
use cute_pcap_mcp.Base.{
  ℕ, zero, suc, ◌+◌, ◌-◌, ◌*◌, ◌%◌, ◌/◌, ◌<◌, ◌≤◌, Bool, true, false, not, ◌&&◌, ◌||◌, List, [],
  ◌∷◌, ◌++◌, map, Option, none, some, ◌≡◌, ◌≢◌, refl, sym, ap, ◌∙◌, ◌↔◌, ◌⊎◌, inl, inr, ltb, leb,
  ◌==◌, if◌then◌else◌, All, All-append, arith, Bool-cases, Option-cases, some_eq, length, any, all,
  take, drop, get_elem?, length-append, length-take, not-true,
}
use cute_pcap_mcp.Base.Text.{Bytes, codes, contains, to_lower, trim_space, is_empty, trim_prefix}
use cute_pcap_mcp.Base.Text.Lines.{split}
use cute_pcap_mcp.Base.Int.{ℤ, pos, pos_part}
use cute_pcap_mcp.Errors.{
  Err, wrapped, is, text, err_analyzer_unavailable, err_analyzer_timeout, err_analyzer_failed,
  trim_sentinel_prefix,
}

pub data Severity : Type 0 where
  info warning : Severity

-- `PacketFinding`
pub record Finding : Type 0 where
  pub code : Bytes
  pub severity : Severity
  pub message : Bytes

pub record Call : Type 0 where
  pub name : Bytes
  pub args : List Bytes
  pub env : List Bytes

-- The program ends well, ends with another status, or is stopped with its context.
pub data Ending : Type 0 where
  finished exited stopped : Ending

pub record Process : Type 0 where
  pub stdout : List Bytes
  pub stderr : List Bytes
  pub ending : Ending

-- `analyzerCommandOutput`
pub record Output : Type 0 where
  pub stdout : Bytes
  pub stderr : Bytes

abbrev pub no_output : Output
no_output = record { stdout = []; stderr = [] }

-- `limitedBuffer.Write` on the content so far.
unfoldable pub write : ℕ → Bytes → Bytes → Bytes
write limit buffer p =
    if leb limit (length buffer) then buffer else buffer ++ take (limit - length buffer) p

unfoldable pub write_all : ℕ → Bytes → List Bytes → Bytes
unfolding write
write_all limit buffer [] = buffer
write_all limit buffer (p ∷ ps) = write_all limit (write limit buffer p) ps

abbrev pub max_stderr_bytes : ℕ
max_stderr_bytes = 65536

unfoldable pub captured : ℤ → Process → Output
unfolding write_all
captured max_bytes p = record {
  stdout = write_all (pos_part max_bytes) [] p.stdout;
  stderr = write_all max_stderr_bytes [] p.stderr;
}

-- What a run gives: its output also where there is an error.
pub record Run : Type 0 where
  pub output : Output
  pub error : Option Err

abbrev pub ended : Call → Bytes → Output → Ending → Option Err
ended c timeout out finished = none
ended c timeout out exited =
    some (wrapped err_analyzer_failed (c.name ++ codes " failed: " ++ trim_space out.stderr))
ended c timeout out stopped =
    some (wrapped err_analyzer_timeout (c.name ++ codes " timed out after " ++ timeout))

abbrev pub run_process : Bytes → ℤ → Call → Option Process → Run
run_process timeout max_bytes c none = record {
  output = no_output;
  error = some (wrapped err_analyzer_unavailable (c.name ++ codes " is not available on PATH"));
}
run_process timeout max_bytes c (some p) =
    let out = captured max_bytes p in record { output = out; error = ended c timeout out p.ending }

-- `runAnalyzerCommandWithEnv`, with the timeout as its text.
unfoldable pub run_command : (Call → Option Process) → Bytes → ℤ → Call → Run
unfolding captured trim_space
run_command program timeout max_bytes c = run_process timeout max_bytes c (program c)

unfoldable pub is_truncated_diagnostic : Bytes → Bool
unfolding to_lower contains
is_truncated_diagnostic text =
    let lc = to_lower text in
    contains lc (codes "appears to have been cut short in the middle of a packet")
    || contains lc (codes "truncated dump file")
    || contains lc (codes "failed to read a packet") && contains lc (codes "only got")

pub record Tolerant : Type 0 where
  pub output : Output
  pub truncated : Bool
  pub error : Option Err

abbrev pub tolerate : Output → Option Err → Tolerant
tolerate out none = record { output = out; truncated = false; error = none }
tolerate out (some e) =
    if is e err_analyzer_failed && is_truncated_diagnostic out.stderr
    then record { output = out; truncated = true; error = none }
    else record { output = out; truncated = false; error = some e }

-- `runAnalyzerCommandTolerant`
unfoldable pub run_tolerant : (Call → Option Process) → Bytes → ℤ → Call → Tolerant
unfolding run_command is
run_tolerant program timeout max_bytes c =
    let r = run_command program timeout max_bytes c in tolerate r.output r.error

unfoldable pub is_filter_error : Err → Bool
unfolding is text to_lower contains
is_filter_error e =
    let msg = to_lower (text e) in
    is e err_analyzer_failed
    && (contains msg (codes "isn't a valid display filter")
        || contains msg (codes "invalid display filter")
        || contains msg (codes "syntax error in filter")
        || contains msg (codes "is not a valid protocol or protocol field")
        || contains msg (codes "filter " ++ 34 ∷ []) && contains msg (codes "is not a valid"))

abbrev pub excerpt : Bytes → Bytes
excerpt text = if ltb 240 (length text) then take 240 text ++ codes "...[truncated]" else text

unfoldable pub truncation_finding : Bytes → Bytes → Finding
unfolding trim_space
truncation_finding analyzer stderr =
    let shown = excerpt (trim_space stderr) in
    let base = analyzer ++ codes " reported a truncated pcap; partial evidence was preserved." in
    record {
      code = codes "pcap_truncated";
      severity = warning;
      message = if is_empty shown then base else base ++ codes " Diagnostic: " ++ shown;
    }

abbrev first_line : List Bytes → Bytes
first_line [] = []
first_line (l ∷ ls) =
    let rest = first_line ls in if is_empty (trim_space l) then rest else trim_space l

unfoldable pub first_non_empty_line : List Bytes → Bytes
unfolding split trim_space
first_non_empty_line [] = []
first_non_empty_line (v ∷ vs) =
    let line = first_line (split v (b'\n' ∷ [])) in
    let rest = first_non_empty_line vs in if is_empty line then rest else line

-- `AnalyzerStatus`; the path of the program is left out.
pub record AnalyzerStatus : Type 0 where
  pub name : Bytes
  pub available : Bool
  pub version : Bytes
  pub error : Bytes

abbrev versioned : Bytes → Run → AnalyzerStatus
versioned name r = elim r.error [
  | none ↦ record {
    name = name;
    available = true;
    version = first_non_empty_line (r.output.stdout ∷ r.output.stderr ∷ []);
    error = [];
  }
  | some e ↦ record {
    name = name;
    available = true;
    version = [];
    error = trim_sentinel_prefix e err_analyzer_failed;
  }
]

abbrev status_of : (Call → Option Process) → Bytes → Bytes → List Bytes → AnalyzerStatus
status_of program timeout name args =
    let c : Call = record { name = name; args = args; env = [] } in
    elim (program c) [
      | none ↦ record {
        name = name;
        available = false;
        version = [];
        error = name ++ codes " is not available on PATH";
      }
      | some p ↦ versioned name (run_command program timeout (pos 65536) c)
    ]

unfoldable pub analyzer_statuses : (Call → Option Process) → Bytes → List AnalyzerStatus
unfolding run_command first_non_empty_line trim_sentinel_prefix
analyzer_statuses program timeout =
    status_of program timeout (codes "capinfos") (codes "-v" ∷ [])
    ∷ status_of program timeout (codes "tshark") (codes "-v" ∷ [])
    ∷ status_of program timeout (codes "zeek") (codes "--version" ∷ [])
    ∷ []
