-- ===== src/Inventory.antt =====
-- The inventory of list_pcap_artifacts: internal/pcap/artifact_inventory.go. A relative path is the
-- text with slashes. The decoding of the cursor is left out, and so is the modification time.
-- The reads of a file are given as the answers to its calls of Read, each with the bytes it returned.
pub mod Walk
pub mod Page
pub mod Laws
pub mod Entries
mod Tests
use cute_pcap_mcp.Base.{
  ℕ, suc, ◌+◌, ◌-◌, ◌*◌, ◌<◌, ◌≤◌, Bool, true, false, not, ◌&&◌, ◌||◌, List, [], ◌∷◌, ◌++◌, map,
  Option, none, some, ◌≡◌, refl, sym, ap, ◌∙◌, ◌↔◌, ◌⊎◌, inl, inr, ltb, leb, ◌==◌, if◌then◌else◌,
  All, All-append, arith, Bool-cases, Option-cases, some_eq, length, any, all,
}
use mathlib.Core.List.{reverse}
use cute_pcap_mcp.Base.Text.{Bytes, codes, eq_bytes, lt_bytes, has_prefix, to_lower, is_empty}
use cute_pcap_mcp.Base.Int.{ℤ, pos, lt_ℤ, le_ℤ, sub64, add64}
use cute_pcap_mcp.Errors.{
  Err, Result, ok, failed, then_do, require, validation, out_of_range, is,
  err_path_outside_allowlist, err_artifact_not_regular, err_artifact_not_found, err_pcap_too_large,
  path_outside_allowlist, artifact_not_regular_file, artifact_not_found, pcap_too_large, token,
}
use cute_pcap_mcp.FilePaths.{FilePath}
use cute_pcap_mcp.Config.{Config}
use cute_pcap_mcp.Artifact.{Lookup, FileInfo, Resolved, resolve_artifact}

abbrev pub max_limit : ℤ
max_limit = pos 10

abbrev or_ten : Option ℤ → ℤ
or_ten none = pos 10
or_ten (some n) = n

abbrev limit_error : Err
limit_error = validation (codes "limit") out_of_range (codes "limit must be between 1 and 10")

unfoldable pub normalize_limit : Option ℤ → Result ℤ
normalize_limit none = ok (pos 10)
normalize_limit (some n) = if lt_ℤ n (pos 1) || lt_ℤ max_limit n then failed limit_error else ok n

pub record Cursor : Type 0 where
  pub root_index : ℕ
  pub relative_path : Bytes

-- The results (true, false), (false, true) and (false, false).
pub data Skip : Type 0 where
  skipped ancestor visited : Skip

abbrev le_bytes : Bytes → Bytes → Bool
le_bytes a b = not (lt_bytes b a)

unfoldable pub skip_entry : ℕ → Bytes → Bool → Option Cursor → Skip
unfolding eq_bytes lt_bytes has_prefix
skip_entry root rel is_dir none = visited
skip_entry root rel is_dir (some cursor) =
    if not (root == cursor.root_index)
    then visited
    else if eq_bytes rel cursor.relative_path && is_dir
    then ancestor
    else if le_bytes rel cursor.relative_path
    then if is_dir && has_prefix cursor.relative_path (rel ++ codes "/") then ancestor else skipped
    else visited

-- filepath.Ext of a text that is given from its end.
unfoldable pub ext_from : Bytes → Bytes → Bytes
ext_from [] acc = []
ext_from (c ∷ s) acc =
    let longer = ext_from s (c ∷ acc) in
    if c == b'/' then [] else if c == b'.' then c ∷ acc else longer

unfoldable pub is_pcap_name : Bytes → Bool
unfolding ext_from to_lower eq_bytes
is_pcap_name path =
    let ext = to_lower (ext_from (reverse path) []) in
    eq_bytes ext (codes ".pcap") || eq_bytes ext (codes ".pcapng")

-- The answers to the calls of Read, and the end of the context.
pub data Answers : Type 0 where
  bytes : Bytes → Answers → Answers
  bytes_eof bytes_error : Bytes → Answers
  canceled : Answers

-- How the hash of a file ends.
pub data HashEnd : Type 0 where
  hashed : Bytes → HashEnd
  over_budget unavailable interrupted : HashEnd

-- The bytes that count, and the end.
pub record HashRun : Type 0 where
  pub read : ℤ
  pub end_ : HashEnd

abbrev run_ : ℤ → HashEnd → HashRun
run_ n e = record { read = n; end_ = e }

-- The loop of `hashFileWithContext`; `seen` is what the hash has been given.
unfoldable pub hash_loop : ℤ → ℤ → Bytes → Answers → HashRun
hash_loop max n seen canceled = run_ n interrupted
hash_loop max n seen (bytes chunk rest) =
    let probed = hash_loop max n seen rest in
    let longer = hash_loop max (add64 n (pos (length chunk))) (seen ++ chunk) rest in
    if le_ℤ max n then if is_empty chunk then probed else run_ n over_budget else longer
hash_loop max n seen (bytes_eof chunk) =
    if le_ℤ max n
    then if is_empty chunk then run_ n (hashed seen) else run_ n over_budget
    else run_ (add64 n (pos (length chunk))) (hashed (seen ++ chunk))
hash_loop max n seen (bytes_error chunk) =
    if le_ℤ max n
    then if is_empty chunk then run_ n unavailable else run_ n over_budget
    else run_ (add64 n (pos (length chunk))) unavailable

unfoldable pub hash_file : ℤ → Answers → HashRun
unfolding hash_loop
hash_file max answers = hash_loop max (pos 0) [] answers

pub data HashStatus : Type 0 where
  computed : Bytes → HashStatus
  budget_reached hash_unavailable : HashStatus

pub record Entry : Type 0 where
  pub path : FilePath
  pub size_bytes : ℤ
  pub hash : HashStatus

-- The outcome for a file: an entry, the reason of a skip, or the end of the context.
pub data Listed : Type 0 where
  entry : Entry → Listed
  skip : Bytes → Listed
  stopped : Listed

unfoldable pub skip_reason : Err → Bytes
unfolding is token
skip_reason e =
    if is e err_path_outside_allowlist
    then token path_outside_allowlist
    else if is e err_artifact_not_regular
    then token artifact_not_regular_file
    else if is e err_artifact_not_found
    then token artifact_not_found
    else if is e err_pcap_too_large
    then token pcap_too_large
    else codes "artifact_inaccessible"

-- *remainingHashBudget -= bytesRead, not below 0
unfoldable pub spend : ℤ → ℤ → ℤ
unfolding sub64
spend budget n =
    let left = sub64 budget n in
    if lt_ℤ (pos 0) n then if lt_ℤ left (pos 0) then pos 0 else left else budget

abbrev listed_as : Entry → (Bytes → Bytes) → HashEnd → Listed
listed_as e sha256_hex (hashed content) = entry (record e { hash = computed (sha256_hex content) })
listed_as e sha256_hex over_budget = entry (record e { hash = budget_reached })
listed_as e sha256_hex unavailable = entry (record e { hash = hash_unavailable })
listed_as e sha256_hex interrupted = stopped

module _ (absolute : Bytes → Lookup FilePath) (eval_symlinks : FilePath → Lookup FilePath)
    (stat : FilePath → Lookup FileInfo) (answers : FilePath → Answers) (sha256_hex : Bytes → Bytes)
    (print : FilePath → Bytes) where
  -- The entry with its hash, for a file that is not larger than what is left of the budget.
  abbrev with_hash : Entry → ℤ → HashRun → Listed × ℤ
  with_hash e budget r = (listed_as e sha256_hex r.end_, spend budget r.read)

  abbrev entry_of : ℤ → Result Resolved → Listed × ℤ
  entry_of budget (failed e) = (skip (skip_reason e), budget)
  entry_of budget (ok r) =
      let e : Entry = record { path = r.path; size_bytes = r.info.size; hash = budget_reached } in
      if not (is_pcap_name (print r.path))
      then (skip (codes "unsupported_artifact_extension"), budget)
      else if lt_ℤ budget r.info.size
      then (entry e, budget)
      else with_hash e budget (hash_file budget (answers r.path))

  -- `artifactInventoryEntryForPath`, with the budget that is left.
  unfoldable pub entry_for : Bytes → Config → ℤ → Listed × ℤ
  unfolding resolve_artifact skip_reason is_pcap_name hash_file spend
  entry_for path cfg budget =
      entry_of budget (resolve_artifact absolute eval_symlinks stat path cfg)
