-- ===== src/Errors.antt =====
-- Error kinds and the classification of internal errors: internal/pcap/errors.go.
-- `Err` has a constructor for each way in which the program makes an error: a bare sentinel, a
-- sentinel wrapped by `fmt.Errorf("%w: ...")`, a `validationFailure`, the two errors of a context,
-- and any other error, of which only the text matters.
pub mod Laws
mod Tests
use cute_pcap_mcp.Base.{
  [], ◌∷◌, Option, some, none, Bool, true, false, ◌++◌, ◌&&◌, ◌||◌, if◌then◌else◌,
}
use cute_pcap_mcp.Base.Text.{Bytes, codes, trim_prefix}

-- The constants ErrorKind*.
pub data Kind : Type 0 where
  invalid_request missing_field validation_failed path_outside_allowlist artifact_not_regular_file
        artifact_not_found pcap_too_large empty_capture no_packets_matched invalid_filter
        hash_mismatch size_mismatch output_limit_reached tmp_budget_exceeded analysis_busy
        analyzer_unavailable analyzer_failed analyzer_timeout frame_number_out_of_range
        frame_not_on_stream :
      Kind

unfoldable pub token : Kind → Bytes
token invalid_request = codes "invalid_request"
token missing_field = codes "missing_field"
token validation_failed = codes "validation_failed"
token path_outside_allowlist = codes "path_outside_allowlist"
token artifact_not_regular_file = codes "artifact_not_regular_file"
token artifact_not_found = codes "artifact_not_found"
token pcap_too_large = codes "pcap_too_large"
token empty_capture = codes "empty_capture"
token no_packets_matched = codes "no_packets_matched"
token invalid_filter = codes "invalid_filter"
token hash_mismatch = codes "hash_mismatch"
token size_mismatch = codes "size_mismatch"
token output_limit_reached = codes "output_limit_reached"
token tmp_budget_exceeded = codes "tmp_budget_exceeded"
token analysis_busy = codes "analysis_busy"
token analyzer_unavailable = codes "analyzer_unavailable"
token analyzer_failed = codes "analyzer_failed"
token analyzer_timeout = codes "analyzer_timeout"
token frame_number_out_of_range = codes "frame_number_out_of_range"
token frame_not_on_stream = codes "frame_not_on_stream"

-- The constants ValidationReason*.
pub data Reason : Type 0 where
  empty invalid_format out_of_range contains_nul too_long : Reason

unfoldable pub reason_token : Reason → Bytes
reason_token empty = codes "empty"
reason_token invalid_format = codes "invalid_format"
reason_token out_of_range = codes "out_of_range"
reason_token contains_nul = codes "contains_nul"
reason_token too_long = codes "too_long"

-- The sentinels of the program, each made by `errors.New` of a kind.
pub data Sentinel : Type 0 where
  err_path_outside_allowlist err_artifact_not_regular err_artifact_not_found
        err_analyzer_unavailable err_analyzer_failed err_analyzer_timeout err_missing_field
        err_validation_failed err_invalid_filter err_pcap_too_large err_tmp_budget_exceeded
        err_analysis_busy err_output_limit_reached err_no_packets_matched err_hash_mismatch
        err_size_mismatch err_frame_out_of_range err_frame_not_on_stream :
      Sentinel

pub kind_of : Sentinel → Kind
kind_of err_path_outside_allowlist = path_outside_allowlist
kind_of err_artifact_not_regular = artifact_not_regular_file
kind_of err_artifact_not_found = artifact_not_found
kind_of err_analyzer_unavailable = analyzer_unavailable
kind_of err_analyzer_failed = analyzer_failed
kind_of err_analyzer_timeout = analyzer_timeout
kind_of err_missing_field = missing_field
kind_of err_validation_failed = validation_failed
kind_of err_invalid_filter = invalid_filter
kind_of err_pcap_too_large = pcap_too_large
kind_of err_tmp_budget_exceeded = tmp_budget_exceeded
kind_of err_analysis_busy = analysis_busy
kind_of err_output_limit_reached = output_limit_reached
kind_of err_no_packets_matched = no_packets_matched
kind_of err_hash_mismatch = hash_mismatch
kind_of err_size_mismatch = size_mismatch
kind_of err_frame_out_of_range = frame_number_out_of_range
kind_of err_frame_not_on_stream = frame_not_on_stream

pub data Err : Type 0 where
  sentinel : Sentinel → Err
  wrapped : Sentinel → Bytes → Err
  validation : Bytes → Reason → Bytes → Err
  canceled deadline_exceeded : Err
  other : Bytes → Err

abbrev same : Sentinel → Sentinel → Bool
same err_path_outside_allowlist err_path_outside_allowlist = true
same err_artifact_not_regular err_artifact_not_regular = true
same err_artifact_not_found err_artifact_not_found = true
same err_analyzer_unavailable err_analyzer_unavailable = true
same err_analyzer_failed err_analyzer_failed = true
same err_analyzer_timeout err_analyzer_timeout = true
same err_missing_field err_missing_field = true
same err_validation_failed err_validation_failed = true
same err_invalid_filter err_invalid_filter = true
same err_pcap_too_large err_pcap_too_large = true
same err_tmp_budget_exceeded err_tmp_budget_exceeded = true
same err_analysis_busy err_analysis_busy = true
same err_output_limit_reached err_output_limit_reached = true
same err_no_packets_matched err_no_packets_matched = true
same err_hash_mismatch err_hash_mismatch = true
same err_size_mismatch err_size_mismatch = true
same err_frame_out_of_range err_frame_out_of_range = true
same err_frame_not_on_stream err_frame_not_on_stream = true
same _ _ = false

-- errors.Is(err, sentinel); a `validationFailure` answers to `errValidationFailed` too.
unfoldable pub is : Err → Sentinel → Bool
is (sentinel s) t = same s t
is (wrapped s detail) t = same s t
is (validation field reason message) t = same err_validation_failed t
is canceled t = false
is deadline_exceeded t = false
is (other text) t = false

-- err.Error()
unfoldable pub text : Err → Bytes
text (sentinel s) = token (kind_of s)
text (wrapped s detail) = token (kind_of s) ++ codes ": " ++ detail
text (validation field reason message) =
    token validation_failed
    ++ codes ": "
    ++ field
    ++ codes ": "
    ++ message
    ++ codes " ("
    ++ reason_token reason
    ++ codes ")"
text canceled = codes "context canceled"
text deadline_exceeded = codes "context deadline exceeded"
text (other t) = t

-- `toolError`; the empty string stands for an omitted field.
pub record ToolError : Type 0 where
  pub kind : Kind
  pub message : Bytes
  pub retryable : Bool
  pub remediation : Bytes
  pub field : Bytes
  pub reason : Option Reason

unfoldable pub trim_sentinel_prefix : Err → Sentinel → Bytes
trim_sentinel_prefix e s = trim_prefix (text e) (token (kind_of s) ++ codes ": ")

abbrev tool_error : Kind → Bytes → Bytes → Bytes → ToolError
tool_error k message remediation field = record {
  kind = k;
  message = message;
  retryable = false;
  remediation = remediation;
  field = field;
  reason = none;
}

abbrev retry : ToolError → ToolError
retry t = record t { retryable = true }

-- The remediation of a rejected display filter, with its quotation marks (byte 34).
abbrev filter_hint : Bytes
filter_hint =
    codes "supply a valid tshark display filter (e.g. "
    ++ 34 ∷ codes "tcp.port == 443"
    ++ 34 ∷ codes ")"

-- The switch of `classify`, which is tried in this order.
classify_sentinel : Err → ToolError
classify_sentinel e =
    if is e err_path_outside_allowlist
    then tool_error path_outside_allowlist
        (codes "pcap path is not under an allowed artifact directory")
        (codes
          "place the pcap under a configured allowed_artifact_dirs entry, or extend the allowlist on the server")
        []
    else if is e err_artifact_not_regular
    then tool_error artifact_not_regular_file (codes "pcap path must point to a regular file")
        (codes "supply a path to a single pcap/pcapng file, not a directory or device") []
    else if is e err_artifact_not_found
    then tool_error artifact_not_found (codes "pcap artifact does not exist on disk")
        (codes
          "verify the path; if this came from an external artifact producer, regenerate or replace the artifact")
        []
    else if is e err_analyzer_unavailable
    then tool_error analyzer_unavailable (trim_sentinel_prefix e err_analyzer_unavailable)
        (codes
          "install the missing analyzer in the server runtime, or use the Docker image which bundles capinfos, tshark, and zeek")
        []
    else if is e err_analyzer_timeout
    then retry (
        tool_error analyzer_timeout (trim_sentinel_prefix e err_analyzer_timeout)
          (codes
            "raise analysis.command_timeout_seconds, narrow the display_filter, or lower max_packet_rows")
          [])
    else if is e err_analyzer_failed
    then tool_error analyzer_failed (trim_sentinel_prefix e err_analyzer_failed) [] []
    else if is e err_invalid_filter
    then tool_error invalid_filter (trim_sentinel_prefix e err_invalid_filter) filter_hint
        (codes "display_filter")
    else if is e err_missing_field
    then tool_error missing_field (trim_sentinel_prefix e err_missing_field) [] []
    else if is e err_validation_failed
    then tool_error validation_failed (trim_sentinel_prefix e err_validation_failed) [] []
    else if is e err_pcap_too_large
    then tool_error pcap_too_large (trim_sentinel_prefix e err_pcap_too_large)
        (codes
          "raise analysis.max_pcap_bytes if the operator workstation can afford it, or split / decimate the capture before submitting")
        []
    else if is e err_tmp_budget_exceeded
    then tool_error tmp_budget_exceeded (trim_sentinel_prefix e err_tmp_budget_exceeded)
        (codes
          "raise analysis.tmp_disk_budget_bytes, lower max_packet_rows / max_zeek_records_per_log, or set include_zeek=false")
        []
    else if is e err_analysis_busy
    then retry (
        tool_error analysis_busy (trim_sentinel_prefix e err_analysis_busy)
          (codes
            "retry after a previous analyze_pcap / summarize_pcap call completes, or raise analysis.max_concurrent_analyses")
          [])
    else if is e err_output_limit_reached
    then tool_error output_limit_reached (trim_sentinel_prefix e err_output_limit_reached)
        (codes
          "raise analysis.output_disk_budget_bytes, or lower per-call evidence budgets (max_packet_rows, max_zeek_records_per_log, max_ascii_strings, max_ascii_bytes)")
        []
    else if is e err_no_packets_matched
    then tool_error no_packets_matched (trim_sentinel_prefix e err_no_packets_matched)
        (codes
          "loosen the display filter, or use pcap_validate first to confirm the source pcap has packets in the expected protocol")
        (codes "display_filter")
    else if is e err_hash_mismatch
    then tool_error hash_mismatch (trim_sentinel_prefix e err_hash_mismatch)
        (codes
          "verify the producer wrote the file completely; if the producer did not compute the hash, omit expected_sha256 and the server will compute it")
        (codes "expected_sha256")
    else if is e err_size_mismatch
    then tool_error size_mismatch (trim_sentinel_prefix e err_size_mismatch)
        (codes
          "verify the producer wrote the file completely; if the producer did not measure the size, omit expected_size_bytes and the server will report the actual size")
        (codes "expected_size_bytes")
    else if is e err_frame_out_of_range
    then tool_error frame_number_out_of_range (trim_sentinel_prefix e err_frame_out_of_range)
        (codes
          "pick a frame_number that exists in the capture; pcap_analyze enumerates valid frame numbers in its packets[] table")
        (codes "frame_number")
    else if is e err_frame_not_on_stream
    then tool_error frame_not_on_stream (trim_sentinel_prefix e err_frame_not_on_stream)
        (codes
          "pick a frame_number that is on a tcp or udp stream (pcap_analyze packets[] shows the protocol per frame), or use the five_tuple selector instead")
        (codes "frame_number")
    else tool_error invalid_request (text e) [] []

unfoldable pub classify : Err → ToolError
unfolding classify_sentinel is text trim_sentinel_prefix
classify (validation field reason message) = record {
  kind = validation_failed;
  message = message;
  retryable = false;
  remediation = [];
  field = field;
  reason = some reason;
}
classify e = classify_sentinel e

-- `missingFieldError`, `validationError` and `invalidFilterError`.
unfoldable pub missing_field_error : Bytes → Err
missing_field_error field = wrapped err_missing_field (field ++ codes " is required")

unfoldable pub invalid_filter_error : Bytes → Err
invalid_filter_error detail = wrapped err_invalid_filter detail

-- A value, or an error.
pub data Result {ℓ} (A : Type ℓ) : Type ℓ where
  ok : A → Result A
  failed : Err → Result A

unfoldable pub then_do {ℓ} : {A B : Type ℓ} → Result A → (A → Result B) → Result B
then_do (ok a) k = k a
then_do (failed e) k = failed e

-- Goes on where a check holds.
unfoldable pub require {ℓ} : {A : Type ℓ} → Bool → Err → Result A → Result A
require true e next = next
require false e next = failed e
