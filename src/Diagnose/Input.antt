-- ===== src/Diagnose/Input.antt =====
-- The input of pcap_detect_symptoms and its validation: `validateDiagnoseInput`,
-- `validateDiagnoseScope` of internal/pcap/diagnose.go and `validateArtifactExpectations` of
-- internal/pcap/server.go. The parameter `is_address` says whether netip.ParseAddr accepts a text.
-- A check gives the error, or `none`.
pub mod Laws
use cute_pcap_mcp.Base.{
  ℕ, suc, ◌+◌, ◌-◌, ◌*◌, ◌<◌, ◌≤◌, Bool, true, false, not, ◌&&◌, ◌||◌, List, [], ◌∷◌, ◌++◌, map,
  Option, none, some, ◌≡◌, refl, sym, ap, ◌∙◌, ◌↔◌, ◌⊎◌, inl, inr, ltb, leb, ◌==◌, if◌then◌else◌,
  All, All-append, arith, Bool-cases, Option-cases, some_eq, length, take, any, all,
}
use cute_pcap_mcp.Base.Text.{Bytes, codes, eq_bytes, to_lower, trim_space, is_empty}
use cute_pcap_mcp.Base.Int.{ℤ, pos, lt_ℤ}
use cute_pcap_mcp.Errors.{
  Err, validation, Reason, invalid_format, out_of_range, missing_field_error, ToolError, classify,
  Kind, token, reason_token, hash_mismatch, size_mismatch, path_outside_allowlist,
  artifact_not_regular_file, artifact_not_found, pcap_too_large, analyzer_timeout,
}
use cute_pcap_mcp.Diagnose.{
  Scope, Finding, FindingCode, artifact_mismatch, path_invalid, input_invalid, parse_timeout,
  flow_unparseable, warning, error,
}
use cute_pcap_mcp.Diagnose.Run.{is_symptom_code}

pub record Input : Type 0 where
  pub path : Bytes
  pub expected_sha256 : Bytes
  pub expected_size_bytes : Option ℤ
  pub scope : Option Scope
  pub symptom_filter : List Bytes

-- The expression ^[0-9a-fA-F]{64}$
abbrev pub is_hex_digit : ℕ → Bool
is_hex_digit c = leb 48 c && leb c 57 || leb b'a' c && leb c b'f' || leb b'A' c && leb c b'F'

abbrev pub is_sha256_hex : Bytes → Bool
is_sha256_hex s = length s == 64 && all is_hex_digit s

-- The first error of two checks.
abbrev pub or_check : Option Err → Option Err → Option Err
or_check none next = next
or_check (some e) next = some e

abbrev pub check : Bool → Err → Option Err
check ok e = if ok then none else some e

abbrev pub is_natural : Option ℤ → Bool
is_natural none = true
is_natural (some n) = not (lt_ℤ n (pos 0))

unfoldable pub validate_expectations : Bytes → Option ℤ → Option Err
validate_expectations sha256 size_bytes =
    or_check
      (check (is_empty sha256 || is_sha256_hex sha256) (
        validation (codes "expected_sha256") invalid_format
          (codes "expected_sha256 must be exactly 64 hex digits")))
      (check (is_natural size_bytes) (
        validation (codes "expected_size_bytes") out_of_range
          (codes "expected_size_bytes must be non-negative")))

abbrev pub is_port : Option ℤ → Bool
is_port none = true
is_port (some n) = not (lt_ℤ n (pos 0) || lt_ℤ (pos 65535) n)

abbrev pub is_set : Option ℤ → Bool
is_set none = false
is_set (some n) = true

abbrev check_port : Bytes → Option ℤ → Option Err
check_port name port =
    check (is_port port) (validation name out_of_range (name ++ codes " must be in [0, 65535]"))

-- The loop over symptom_filter.
unfoldable pub validate_filter : List Bytes → Option Err
unfolding is_symptom_code
validate_filter [] = none
validate_filter (t ∷ ts) =
    or_check
      (check (is_symptom_code t) (
        validation (codes "symptom_filter") invalid_format
          (codes "unknown symptom_filter token: " ++ t)))
      (validate_filter ts)

module _ (is_address : Bytes → Bool) where
  abbrev check_address : Bytes → Bytes → Option Err
  check_address name value =
      check (is_empty (trim_space value) || is_address (trim_space value))
        (validation name invalid_format (name ++ codes " must be a valid IP address"))

  unfoldable pub validate_scope : Option Scope → Option Err
  unfolding trim_space to_lower eq_bytes
  validate_scope none = none
  validate_scope (some scope) =
      let protocol = to_lower (trim_space scope.protocol) in
      or_check (check_address (codes "scope.src_ip") scope.source_ip) (
        or_check (check_address (codes "scope.dst_ip") scope.destination_ip) (
          or_check (check_port (codes "scope.src_port") scope.source_port) (
            or_check (check_port (codes "scope.dst_port") scope.destination_port) (
              or_check
                (check
                  (is_empty protocol
                    || eq_bytes protocol (codes "tcp")
                    || eq_bytes protocol (codes "udp")
                    || eq_bytes protocol (codes "icmp"))
                  (validation (codes "scope.protocol") invalid_format
                    (codes "scope.protocol must be tcp, udp, or icmp")))
                (check
                  (not (
                    eq_bytes protocol (codes "icmp")
                    && (is_set scope.source_port || is_set scope.destination_port)))
                  (validation (codes "scope") invalid_format
                    (codes "icmp scope must not set src_port or dst_port")))))))

  unfoldable pub validate_input : Input → Option Err
  unfolding validate_expectations validate_scope validate_filter missing_field_error
  validate_input i =
      or_check (check (not (is_empty (trim_space i.path))) (missing_field_error (codes "path"))) (
        or_check (validate_expectations i.expected_sha256 i.expected_size_bytes)
          (or_check (validate_scope i.scope) (validate_filter i.symptom_filter)))

-- strings.Join(parts, " ")
unfoldable pub join_spaces : List Bytes → Bytes
join_spaces [] = []
join_spaces (p ∷ []) = p
join_spaces (p ∷ q ∷ ps) = p ++ (32 ∷ join_spaces (q ∷ ps))

unfoldable pub bounded_detail : Bytes → Bytes
unfolding trim_space
bounded_detail detail =
    let trimmed = trim_space detail in
    if leb (length trimmed) 240 then trimmed else take 240 trimmed ++ codes "...[truncated]"

abbrev pub field_part : Bytes → List Bytes
field_part name = if is_empty name then [] else (codes "field=" ++ name) ∷ []

abbrev pub reason_part : Option Reason → List Bytes
reason_part none = []
reason_part (some r) = (codes "reason=" ++ reason_token r) ∷ []

-- The kind is never empty, so the part for it is always there.
unfoldable pub tool_error_detail : ToolError → Bytes
unfolding token reason_token join_spaces
tool_error_detail e =
    join_spaces ((codes "kind=" ++ token e.kind) ∷ field_part e.field ++ reason_part e.reason)

abbrev pub error_code : Kind → FindingCode
error_code hash_mismatch = artifact_mismatch
error_code size_mismatch = artifact_mismatch
error_code path_outside_allowlist = path_invalid
error_code artifact_not_regular_file = path_invalid
error_code artifact_not_found = path_invalid
error_code pcap_too_large = path_invalid
error_code _ = input_invalid

unfoldable pub finding_for_error : Err → Finding
unfolding classify bounded_detail tool_error_detail
finding_for_error e =
    let t = classify e in
    record {
      code = error_code t.kind;
      severity = error;
      detail = bounded_detail (tool_error_detail t);
    }

abbrev analyzer_finding_of : Kind → Finding
analyzer_finding_of analyzer_timeout = record {
  code = parse_timeout;
  severity = warning;
  detail = codes "kind=" ++ token analyzer_timeout;
}
analyzer_finding_of k = record {
  code = flow_unparseable;
  severity = warning;
  detail = bounded_detail (codes "kind=" ++ token k);
}

unfoldable pub analyzer_finding : Err → Finding
unfolding classify bounded_detail token
analyzer_finding e = analyzer_finding_of (classify e).kind
