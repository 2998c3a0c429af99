-- ===== src/Keylog.antt =====
-- TLS decryption: internal/pcap/tls_decryption.go. The file system is given by functions as in Artifact;
-- the fixed list of limitations is a mark for its presence.
pub mod Laws
pub mod Report
pub mod Accepted
mod Tests
use cute_pcap_mcp.Base.{
  ◌%◌, ℕ, suc, ◌+◌, ◌-◌, ◌*◌, ◌<◌, ◌≤◌, Bool, true, false, not, ◌&&◌, ◌||◌, List, [], ◌∷◌, ◌++◌,
  map, Option, none, some, ◌≡◌, refl, sym, ap, ◌∙◌, ◌↔◌, ◌⊎◌, inl, inr, ltb, leb, ◌==◌,
  if◌then◌else◌, All, All-append, arith, Bool-cases, Option-cases, some_eq, length, any, all,
}
use cute_pcap_mcp.Base.Text.{
  Bytes, codes, eq_bytes, has_prefix, without_prefix, trim_space, is_empty,
}
use cute_pcap_mcp.Base.Text.Decimal.{is_digit, decimal}
use cute_pcap_mcp.Base.Text.Lines.{fields, raw_lines, drop_return}
use cute_pcap_mcp.FilePaths.{FilePath, path_contains}
use cute_pcap_mcp.Config.{Config}
use cute_pcap_mcp.Artifact.{Lookup, found, not_exist, broken, FileInfo, print_path}

pub data Status : Type 0 where
  not_requested unavailable keylog_missing keylog_invalid attempted succeeded failed : Status

pub record DecryptionStatus : Type 0 where
  pub status : Status
  pub keylog_path : Option FilePath
  pub detail : Bytes
  pub limitations : Bool

pub record Summary : Type 0 where
  pub non_comment_lines : ℕ
  pub usable_secret_lines : ℕ

pub record Resolution : Type 0 where
  pub path : Option FilePath
  pub status : Status
  pub detail : Bytes

abbrev pub is_hex : ℕ → Bool
is_hex c = is_digit c || leb b'a' c && leb c b'f' || leb b'A' c && leb c b'F'

unfoldable pub is_even_hex : Bytes → Bool
is_even_hex value = not (is_empty value) && length value % 2 == 0 && all is_hex value

abbrev fixed_labels : List Bytes
fixed_labels =
    codes "CLIENT_RANDOM"
    ∷ codes "CLIENT_EARLY_TRAFFIC_SECRET"
    ∷ codes "CLIENT_HANDSHAKE_TRAFFIC_SECRET"
    ∷ codes "SERVER_HANDSHAKE_TRAFFIC_SECRET"
    ∷ codes "EXPORTER_SECRET"
    ∷ codes "EARLY_EXPORTER_SECRET"
    ∷ codes "RSA"
    ∷ []

abbrev numbered_labels : List Bytes
numbered_labels = codes "CLIENT_TRAFFIC_SECRET_" ∷ codes "SERVER_TRAFFIC_SECRET_" ∷ []

abbrev is_number : Bytes → Bool
is_number suffix = not (is_empty suffix) && all is_digit suffix

-- The loop over the two prefixes, which returns at the first that fits.
unfoldable pub has_numbered_label : Bytes → List Bytes → Bool
unfolding has_prefix without_prefix
has_numbered_label label [] = false
has_numbered_label label (p ∷ ps) =
    if has_prefix label p then is_number (without_prefix label p) else has_numbered_label label ps

unfoldable pub is_recognized_label : Bytes → Bool
unfolding eq_bytes has_numbered_label
is_recognized_label label =
    any (eq_bytes label) fixed_labels || has_numbered_label label numbered_labels

unfoldable pub is_secret : List Bytes → Bool
is_secret (label ∷ client_random ∷ secret ∷ []) =
    is_recognized_label label
    && is_even_hex client_random
    && is_even_hex secret
    && leb 64 (length secret)
    && (eq_bytes label (codes "RSA") || length client_random == 64)
is_secret _ = false

-- `isUsableTLSKeylogLine`
unfoldable pub is_usable_line : Bytes → Bool
unfolding fields is_secret is_recognized_label is_even_hex eq_bytes
is_usable_line line = is_secret (fields line)

abbrev pub max_line_bytes : ℕ
max_line_bytes = 1048576

abbrev pub is_skipped_line : Bytes → Bool
is_skipped_line line = is_empty line || has_prefix line (codes "#")

abbrev pub count_line : Bytes → Summary → Summary
count_line line s = record {
  non_comment_lines = suc s.non_comment_lines;
  usable_secret_lines =
      if is_usable_line line then suc s.usable_secret_lines else s.usable_secret_lines;
}

abbrev pub tidy : Bytes → Bytes
tidy raw = trim_space (drop_return raw)

abbrev pub read_line : Bytes → Summary → Summary
read_line line s = if is_skipped_line line then s else count_line line s

-- The loop of the scanner, which fails at a line that does not fit in its buffer.
unfoldable pub scan : Summary → List Bytes → Option Summary
scan s [] = some s
scan s (raw ∷ rest) =
    let on = scan (read_line (tidy raw) s) rest in
    if leb max_line_bytes (length raw) then none else on

abbrev pub no_lines : Summary
no_lines = record { non_comment_lines = 0; usable_secret_lines = 0 }

-- `validateTLSKeylogFile`; none stands for an error.
unfoldable pub validate_file : Lookup Bytes → Option Summary
unfolding scan raw_lines is_usable_line trim_space drop_return has_prefix
validate_file (found content) = scan no_lines (raw_lines content)
validate_file not_exist = none
validate_file (broken text) = none

abbrev without_path : Status → Bytes → Resolution
without_path s detail = record { path = none; status = s; detail = detail }

-- What the counts of the lines mean for the path.
unfoldable pub judge_summary : FilePath → Option Summary → Resolution
unfolding decimal
judge_summary path none =
    without_path unavailable
      (codes "tls_keylog_path could not be read for SSLKEYLOGFILE validation")
judge_summary path (some s) =
    if s.usable_secret_lines == 0
    then if s.non_comment_lines == 0
      then without_path keylog_invalid (
          codes
            "tls_keylog_path is empty or contains only comments; no SSLKEYLOGFILE secret lines were found")
      else without_path keylog_invalid (
          codes "tls_keylog_path does not contain any recognized SSLKEYLOGFILE secret lines; "
          ++ decimal s.non_comment_lines
          ++ codes " non-comment line(s) were ignored as malformed or unsupported")
    else record {
      path = some path;
      status = attempted;
      detail =
          codes "validated "
          ++ decimal s.usable_secret_lines
          ++ codes " SSLKEYLOGFILE secret line(s)";
    }

module _ (absolute : Bytes → Lookup FilePath) (eval_symlinks : FilePath → Lookup FilePath)
    (stat : FilePath → Lookup FileInfo) (read : FilePath → Lookup Bytes) where
  abbrev missing : Resolution
  missing = without_path keylog_missing (codes "tls_keylog_path does not exist on disk")

  abbrev after_stat : FilePath → Lookup FileInfo → Resolution
  after_stat real not_exist = missing
  after_stat real (broken text) = without_path unavailable (codes "tls_keylog_path stat failed")
  after_stat real (found info) =
      if info.is_regular
      then judge_summary real (validate_file (read real))
      else without_path unavailable (codes "tls_keylog_path must be a regular file")

  abbrev after_links : FilePath → Lookup FilePath → Resolution
  after_links dir not_exist = missing
  after_links dir (broken text) =
      without_path unavailable (codes "tls_keylog_path symlink resolution failed")
  after_links dir (found real) =
      if path_contains dir real
      then after_stat real (stat real)
      else without_path unavailable (
          codes
            "tls_keylog_path resolved outside workspace.keylog_dir; keylog material must live under the configured allowlist")

  abbrev after_absolute : FilePath → Lookup FilePath → Resolution
  after_absolute dir (found abs) = after_links dir (eval_symlinks abs)
  after_absolute dir not_exist =
      without_path unavailable (codes "tls_keylog_path could not be resolved to an absolute path")
  after_absolute dir (broken text) =
      without_path unavailable (codes "tls_keylog_path could not be resolved to an absolute path")

  abbrev in_dir : Bytes → Option FilePath → Resolution
  in_dir raw none = without_path unavailable (
      codes
        "workspace.keylog_dir is not configured on this server; TLS decryption support is disabled")
  in_dir raw (some dir) = after_absolute dir (absolute raw)

  -- `resolveTLSKeylog`
  unfoldable pub resolve_keylog : Bytes → Config → Resolution
  unfolding trim_space path_contains judge_summary validate_file
  resolve_keylog raw cfg =
      if is_empty (trim_space raw)
      then without_path not_requested []
      else in_dir raw cfg.workspace.keylog_dir

unfoldable pub append_detail : Bytes → Bytes → Bytes
append_detail prefix suffix =
    if is_empty prefix
    then suffix
    else if is_empty suffix
    then prefix
    else prefix ++ codes "; " ++ suffix

-- The status and the detail after the analyzers ran.
abbrev demote : Status → Bytes → Bool → Status × Bytes
demote attempted detail true = (
  failed,
  append_detail detail (
      codes
        "tshark or Zeek returned an error while the keylog was applied; see errors[] for the per-analyzer kind"),
)
demote attempted detail false = (
  attempted,
  append_detail detail (
      codes
        "keylog applied to tshark and Zeek; the analyzers ran without subprocess errors. This does NOT prove any session was decrypted "
      ++ (226 ∷ 128 ∷ 148 ∷ codes " see limitations.")),
)
demote s detail analyzer_failed = (s, detail)

-- `keylogPathOrEmpty`
unfoldable pub keylog_path_or_empty : Status → Option FilePath → Option FilePath
keylog_path_or_empty attempted resolved = resolved
keylog_path_or_empty succeeded resolved = resolved
keylog_path_or_empty failed resolved = resolved
keylog_path_or_empty _ resolved = none

abbrev stamp : Status → Bytes → Option FilePath → DecryptionStatus
stamp not_requested detail path = record {
  status = not_requested;
  keylog_path = none;
  detail = [];
  limitations = false;
}
stamp s detail path = record {
  status = s;
  keylog_path = keylog_path_or_empty s path;
  detail = detail;
  limitations = true;
}

unfoldable pub finalize : Status → Bytes → Bool → Option FilePath → DecryptionStatus
unfolding append_detail keylog_path_or_empty
finalize s detail analyzer_failed path =
    let (final, final_detail) = demote s detail analyzer_failed in stamp final final_detail path

-- `keylogTSharkArgs`
unfoldable pub keylog_tshark_args : Option FilePath → List Bytes
unfolding print_path
keylog_tshark_args none = []
keylog_tshark_args (some path) = codes "-o" ∷ (codes "tls.keylog_file:" ++ print_path path) ∷ []
