-- ===== src/Artifact.antt =====
-- Artifacts of the server: `resolveArtifactFile` and `inspectArtifact` of internal/pcap/server.go.
-- The file system is given by functions: `absolute` is filepath.Abs and Clean, `eval_symlinks` and
-- `stat` look a path up, `read` gives the content of a file, and `sha256_hex` is the hash in hex.
pub mod Laws
pub mod Tests
use cute_pcap_mcp.Base.{
  ℕ, suc, ◌+◌, ◌-◌, ◌*◌, ◌<◌, ◌≤◌, Bool, true, false, not, ◌&&◌, ◌||◌, List, [], ◌∷◌, ◌++◌, map,
  Option, none, some, ◌≡◌, refl, sym, ap, ◌∙◌, ◌↔◌, ◌⊎◌, inl, inr, ltb, leb, ◌==◌, if◌then◌else◌,
  All, All-append, arith, Bool-cases, Option-cases, some_eq, length, any, all,
}
use cute_pcap_mcp.Base.Text.{Bytes, codes, eq_bytes, to_lower, is_empty}
use cute_pcap_mcp.Base.Text.Atoi.{print_int}
use cute_pcap_mcp.Base.Int.{ℤ, pos, lt_ℤ, eq_ℤ}
use cute_pcap_mcp.Errors.{
  Err, Result, ok, failed, then_do, require, sentinel, wrapped, other, missing_field_error,
  err_artifact_not_found, err_path_outside_allowlist, err_artifact_not_regular, err_pcap_too_large,
  err_size_mismatch, err_hash_mismatch,
}
use cute_pcap_mcp.FilePaths.{FilePath, under_any}
use cute_pcap_mcp.Config.{Config}

-- What a lookup in the file system gives; the text is that of another error.
pub data Lookup (A : Type 0) : Type 0 where
  found : A → Lookup A
  not_exist : Lookup A
  broken : Bytes → Lookup A

pub record FileInfo : Type 0 where
  pub size : ℤ
  pub is_regular : Bool

pub record ArtifactInfo : Type 0 where
  pub path : FilePath
  pub size_bytes : ℤ
  pub sha256 : Bytes

pub record Expectations : Type 0 where
  pub sha256 : Bytes
  pub size_bytes : Option ℤ

pub record Resolved : Type 0 where
  pub path : FilePath
  pub info : FileInfo

unfoldable pub print_path : FilePath → Bytes
print_path [] = []
print_path (s ∷ p) = b'/' ∷ s ++ print_path p

-- err_artifact_not_found is given for a path that does not exist.
unfoldable pub looked_up : {A : Type 0} → FilePath → Lookup A → Result A
unfolding print_path
looked_up p (found a) = ok a
looked_up p not_exist = failed (wrapped err_artifact_not_found (print_path p))
looked_up p (broken text) = failed (other text)

abbrev plain_lookup : {A : Type 0} → Lookup A → Result A
plain_lookup (found a) = ok a
plain_lookup not_exist = failed (other (codes "no such file or directory"))
plain_lookup (broken text) = failed (other text)

abbrev pub is_too_large : ℤ → ℤ → Bool
is_too_large limit size = lt_ℤ (pos 0) limit && lt_ℤ limit size

abbrev too_large_detail : ℤ → ℤ → Bytes
too_large_detail limit size =
    print_int size
    ++ codes " bytes exceeds analysis.max_pcap_bytes ("
    ++ print_int limit
    ++ codes ")"

abbrev pub is_expected_size : Option ℤ → ℤ → Bool
is_expected_size none size = true
is_expected_size (some n) size = eq_ℤ size n

abbrev size_detail : Option ℤ → ℤ → Bytes
size_detail none size = []
size_detail (some n) size =
    codes "artifact size "
    ++ print_int size
    ++ codes " bytes does not match expected_size_bytes ("
    ++ print_int n
    ++ codes ")"

-- strings.EqualFold on hexadecimal digits
abbrev pub is_expected_hash : Bytes → Bytes → Bool
is_expected_hash expected actual =
    is_empty expected || eq_bytes (to_lower actual) (to_lower expected)

module _ (absolute : Bytes → Lookup FilePath) (eval_symlinks : FilePath → Lookup FilePath)
    (stat : FilePath → Lookup FileInfo) where
  unfoldable pub resolve_artifact : Bytes → Config → Result Resolved
  unfolding looked_up under_any then_do require missing_field_error print_int
  resolve_artifact path cfg = require (not (is_empty path)) (missing_field_error (codes "path")) (
      then_do (plain_lookup (absolute path)) (λ abs.
        then_do (looked_up abs (eval_symlinks abs)) (λ real.
          require (under_any real cfg.allowed_artifact_dirs) (sentinel err_path_outside_allowlist) (
            then_do (looked_up real (stat real)) (λ info.
              require info.is_regular (sentinel err_artifact_not_regular) (
                require (not (is_too_large cfg.analysis.max_pcap_bytes info.size))
                  (wrapped err_pcap_too_large
                    (too_large_detail cfg.analysis.max_pcap_bytes info.size))
                  (ok (record { path = real; info = info }))))))))

  module _ (read : FilePath → Lookup Bytes) (sha256_hex : Bytes → Bytes) where
    unfoldable pub inspect_artifact : Bytes → Config → Expectations → Result ArtifactInfo
    unfolding resolve_artifact to_lower eq_bytes
    inspect_artifact path cfg expected = then_do (resolve_artifact path cfg) (λ r.
        require (is_expected_size expected.size_bytes r.info.size)
          (wrapped err_size_mismatch (size_detail expected.size_bytes r.info.size))
          (then_do (plain_lookup (read r.path)) (λ content.
            require (is_expected_hash expected.sha256 (sha256_hex content))
              (wrapped err_hash_mismatch (
                codes "artifact sha256 "
                ++ sha256_hex content
                ++ codes " does not match expected_sha256"))
              (ok (record {
                path = r.path;
                size_bytes = r.info.size;
                sha256 = sha256_hex content;
              })))))
