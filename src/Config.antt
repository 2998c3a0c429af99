-- ===== src/Config.antt =====
-- The configuration: `Normalize`, `normalizeWorkspace` and the resolution of directories of
-- internal/config/config.go. The YAML decoder is left out. A directory is unset (the empty string)
-- or a clean absolute path. The file system is given by functions: `absolute` is filepath.Abs and
-- Clean of a text, `stat` the kind of a path, and `eval_symlinks` filepath.EvalSymlinks.
pub mod Laws
pub mod Bounds
mod Tests
use cute_pcap_mcp.Base.{
  ℕ, suc, ◌+◌, ◌-◌, ◌*◌, ◌<◌, ◌≤◌, Bool, true, false, not, ◌&&◌, ◌||◌, List, [], ◌∷◌, ◌++◌, map,
  Option, none, some, ◌≡◌, refl, sym, ap, ◌∙◌, ◌↔◌, ◌⊎◌, inl, inr, ltb, leb, ◌^◌, ◌==◌,
  if◌then◌else◌, All, All-append, arith, Bool-cases, Option-cases, some_eq, length, any, all,
}
use mathlib.Core.List.{reverse}
use cute_pcap_mcp.Base.Text.{Bytes, codes, is_empty}
use cute_pcap_mcp.Base.Int.{ℤ, pos, lt_ℤ, eq_ℤ}
use cute_pcap_mcp.FilePaths.{FilePath, path_contains, same_path}

-- Which check of the code rejects a configuration.
pub data ConfigError : Type 0 where
  no_directories empty_directory cannot_resolve not_a_directory no_ancestor equals_pcap_dir
        nested_in_pcap_dir equals_root outside_root out_of_bounds :
      ConfigError

pub data Result {ℓ} (A : Type ℓ) : Type ℓ where
  ok : A → Result A
  failed : ConfigError → Result A

unfoldable pub then_do {ℓ} : {A B : Type ℓ} → Result A → (A → Result B) → Result B
then_do (ok a) k = k a
then_do (failed e) k = failed e

-- Goes on where a check holds.
unfoldable pub require {ℓ} : {A : Type ℓ} → Bool → ConfigError → Result A → Result A
require true e next = next
require false e next = failed e

pub data Stat : Type 0 where
  directory other missing unreadable : Stat

pub record RawWorkspace : Type 0 where
  pub root : Bytes
  pub pcap_dir : Bytes
  pub output_dir : Bytes
  pub tmp_dir : Bytes
  pub keylog_dir : Bytes

pub record Workspace : Type 0 where
  pub root : Option FilePath
  pub pcap_dir : Option FilePath
  pub output_dir : Option FilePath
  pub tmp_dir : Option FilePath
  pub keylog_dir : Option FilePath

pub record Limits : Type 0 where
  pub command_timeout_seconds : ℤ
  pub max_stdout_bytes : ℤ
  pub max_packet_rows : ℤ
  pub max_ascii_strings : ℤ
  pub max_ascii_bytes : ℤ
  pub max_zeek_records_per_log : ℤ
  pub max_pcap_bytes : ℤ
  pub max_concurrent_analyses : ℤ
  pub tmp_disk_budget_bytes : ℤ
  pub output_disk_budget_bytes : ℤ

pub record RawConfig : Type 0 where
  pub allowed_artifact_dirs : List Bytes
  pub workspace : RawWorkspace
  pub analysis : Limits

pub record Config : Type 0 where
  pub allowed_artifact_dirs : List FilePath
  pub workspace : Workspace
  pub analysis : Limits

-- The default of a field that is 0, and the test of its range.
unfoldable pub at_least : ℤ → ℤ → ℤ → Result ℤ
at_least default low v =
    let value = if eq_ℤ v (pos 0) then default else v in
    require (not (lt_ℤ value low)) out_of_bounds (ok value)

unfoldable pub between : ℤ → ℤ → ℤ → ℤ → Result ℤ
between default low high v =
    let value = if eq_ℤ v (pos 0) then default else v in
    require (not (lt_ℤ value low || lt_ℤ high value)) out_of_bounds (ok value)

abbrev pub mebibyte : ℕ
mebibyte = 2 ^ 20

-- The part of `Normalize` on the analysis limits.
unfoldable pub normalize_limits : Limits → Result Limits
unfolding at_least between
normalize_limits l =
    then_do (between (pos 20) (pos 1) (pos 120) l.command_timeout_seconds) (λ timeout.
      then_do (between (pos 200000) (pos 1024) (pos 5000000) l.max_stdout_bytes) (λ stdout.
        then_do (between (pos 200) (pos 1) (pos 10000) l.max_packet_rows) (λ rows.
          then_do (between (pos 200) (pos 1) (pos 10000) l.max_ascii_strings) (λ strings.
            then_do (between (pos 200000) (pos 1024) (pos 5000000) l.max_ascii_bytes) (λ ascii.
              then_do (between (pos 100) (pos 1) (pos 10000) l.max_zeek_records_per_log) (λ zeek.
                then_do (at_least (pos (1024 * mebibyte)) (pos 65536) l.max_pcap_bytes) (λ pcap.
                  then_do (between (pos 2) (pos 1) (pos 64) l.max_concurrent_analyses)
                    (λ concurrent.
                      then_do
                        (at_least (pos (512 * mebibyte)) (pos mebibyte) l.tmp_disk_budget_bytes)
                        (λ tmp.
                          then_do
                            (at_least (pos (256 * mebibyte)) (pos mebibyte)
                              l.output_disk_budget_bytes)
                            (λ output. ok (record {
                              command_timeout_seconds = timeout;
                              max_stdout_bytes = stdout;
                              max_packet_rows = rows;
                              max_ascii_strings = strings;
                              max_ascii_bytes = ascii;
                              max_zeek_records_per_log = zeek;
                              max_pcap_bytes = pcap;
                              max_concurrent_analyses = concurrent;
                              tmp_disk_budget_bytes = tmp;
                              output_disk_budget_bytes = output;
                            })))))))))))

-- Both are set and the test holds.
abbrev pub both : (FilePath → FilePath → Bool) → Option FilePath → Option FilePath → Bool
both test none q = false
both test (some p) none = false
both test (some p) (some q) = test p q

-- The checks of one directory against the root.
unfoldable pub check_slot : FilePath → Option FilePath → Result (Unit {0})
unfolding same_path path_contains
check_slot root none = ok tt
check_slot root (some dir) =
    require (not (same_path dir root)) equals_root
      (require (path_contains root dir) outside_root (ok tt))

unfoldable pub check_root : Option FilePath → Workspace → Result (Unit {0})
unfolding check_slot
check_root none w = ok tt
check_root (some root) w = then_do (check_slot root w.pcap_dir) (λ _.
    then_do (check_slot root w.output_dir)
      (λ _. then_do (check_slot root w.tmp_dir) (λ _. check_slot root w.keylog_dir)))

-- The part of `normalizeWorkspace` after the resolution.
unfoldable pub check_workspace : Workspace → Result Workspace
unfolding same_path path_contains check_root
check_workspace w = require (not (both same_path w.output_dir w.pcap_dir)) equals_pcap_dir (
    require (not (both same_path w.tmp_dir w.pcap_dir)) equals_pcap_dir (
      require (not (both path_contains w.pcap_dir w.output_dir)) nested_in_pcap_dir (
        require (not (both path_contains w.pcap_dir w.tmp_dir)) nested_in_pcap_dir
          (then_do (check_root w.root w) (λ _. ok w)))))

-- seen[abs]
unfoldable pub seen : FilePath → List FilePath → Bool
unfolding same_path
seen p [] = false
seen p (d ∷ ds) = same_path d p || seen p ds

abbrev pub add_dir : FilePath → List FilePath → List FilePath
add_dir p ds = if seen p ds then ds else ds ++ p ∷ []

-- The directory for pcaps, at the end of the allowed ones.
abbrev pub with_pcap_dir : Option FilePath → List FilePath → List FilePath
with_pcap_dir none ds = ds
with_pcap_dir (some p) ds = add_dir p ds

abbrev pub is_none : Option FilePath → Bool
is_none none = true
is_none (some p) = false

abbrev pub no_dirs : List Bytes → Bool
no_dirs [] = true
no_dirs (t ∷ ts) = false

module _ (absolute : Bytes → Option FilePath) (stat : FilePath → Stat)
    (eval_symlinks : FilePath → Option FilePath) where
  abbrev resolved_or : Option FilePath → FilePath → Result FilePath
  resolved_or none tail = failed cannot_resolve
  resolved_or (some p) tail = ok (p ++ tail)

  -- The loop of `resolveOptionalDir`: the path is taken from its end, `tail` is what was taken off.
  unfoldable pub climb : List Bytes → FilePath → Result FilePath
  climb [] tail = failed no_ancestor
  climb (base ∷ up) tail =
      let higher = climb up (base ∷ tail) in
      elim (stat (reverse up)) [
        | directory ↦ resolved_or (eval_symlinks (reverse up)) (base ∷ tail)
        | other ↦ failed not_a_directory
        | missing ↦ higher
        | unreadable ↦ failed cannot_resolve
      ]

  unfoldable pub resolve_optional : FilePath → Result FilePath
  unfolding climb
  resolve_optional p = elim (stat p) [
    | directory ↦ resolved_or (eval_symlinks p) []
    | other ↦ failed not_a_directory
    | missing ↦ climb (reverse p) []
    | unreadable ↦ failed cannot_resolve
  ]

  abbrev resolve_text : Option FilePath → Result (Option FilePath)
  resolve_text none = failed cannot_resolve
  resolve_text (some p) = then_do (resolve_optional p) (λ q. ok (some q))

  -- A directory of the workspace; `default` is its place under the root, if there is one.
  unfoldable pub resolve_slot : Option FilePath → Bytes → Result (Option FilePath)
  unfolding resolve_optional
  resolve_slot default text =
      if is_empty text
      then elim default [
        | none ↦ ok none
        | some p ↦ then_do (resolve_optional p) (λ q. ok (some q))
      ]
      else resolve_text (absolute text)

  abbrev pub below : Option FilePath → Bytes → Option FilePath
  below none name = none
  below (some root) name = some (root ++ name ∷ [])

  unfoldable pub normalize_workspace : RawWorkspace → Result Workspace
  unfolding resolve_slot check_workspace
  normalize_workspace raw = then_do (resolve_slot none raw.root) (λ root.
      then_do (resolve_slot (below root (codes "pcaps")) raw.pcap_dir) (λ pcap.
        then_do (resolve_slot (below root (codes "output")) raw.output_dir) (λ output.
          then_do (resolve_slot (below root (codes "tmp")) raw.tmp_dir) (λ tmp.
            then_do (resolve_slot none raw.keylog_dir) (λ keylog. check_workspace (record {
              root = root;
              pcap_dir = pcap;
              output_dir = output;
              tmp_dir = tmp;
              keylog_dir = keylog;
            }))))))

  abbrev existing : Option FilePath → Result FilePath
  existing none = failed cannot_resolve
  existing (some p) = elim (stat p) [
    | directory ↦ ok p
    | other ↦ failed not_a_directory
    | missing ↦ failed cannot_resolve
    | unreadable ↦ failed cannot_resolve
  ]

  abbrev links_of : Option FilePath → Option FilePath
  links_of none = none
  links_of (some p) = eval_symlinks p

  unfoldable pub resolve_existing : Bytes → Result FilePath
  resolve_existing text = existing (links_of (absolute text))

  -- The loop over allowed_artifact_dirs.
  unfoldable pub resolve_dirs : List FilePath → List Bytes → Result (List FilePath)
  unfolding resolve_existing seen
  resolve_dirs done [] = ok done
  resolve_dirs done (t ∷ ts) =
      require (not (is_empty t)) empty_directory
        (then_do (resolve_existing t) (λ p. resolve_dirs (add_dir p done) ts))

  unfoldable pub normalize : RawConfig → Result Config
  unfolding normalize_workspace resolve_dirs seen normalize_limits
  normalize raw = then_do (normalize_workspace raw.workspace) (λ w.
      require (not (no_dirs raw.allowed_artifact_dirs && is_none w.pcap_dir)) no_directories (
        then_do (resolve_dirs [] raw.allowed_artifact_dirs) (λ dirs.
          then_do (normalize_limits raw.analysis) (λ limits. ok (record {
            allowed_artifact_dirs = with_pcap_dir w.pcap_dir dirs;
            workspace = w;
            analysis = limits;
          })))))
