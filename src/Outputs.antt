-- ===== src/Outputs.antt =====
-- The directories and files of the output workspace: internal/pcap/artifacts.go. A disk has the names of the
-- directories under workspace.output_dir and the files in them; the errors of the system calls other than
-- a name that is taken are parameters, like the hash and the time, which is given in its two formats. A
-- write that fails leaves no file.
pub mod Laws
pub mod Live
pub mod Tests
use cute_pcap_mcp.Base.{
  ℕ, zero, suc, ◌+◌, ◌-◌, ◌*◌, ◌%◌, ◌/◌, ◌<◌, ◌≤◌, Bool, true, false, not, ◌&&◌, ◌||◌, List, [],
  ◌∷◌, ◌++◌, map, Option, none, some, ◌≡◌, ◌≢◌, refl, sym, ap, ◌∙◌, ◌↔◌, ◌⊎◌, inl, inr, ltb, leb,
  ◌==◌, if◌then◌else◌, All, All-append, arith, Bool-cases, Option-cases, some_eq, length, any, all,
  take, drop, get_elem?, length-append, length-take, not-true,
}
use mathlib.Core.Option.{none, some}
use cute_pcap_mcp.Base.Text.{Bytes, codes, eq_bytes, is_empty}
use cute_pcap_mcp.Base.Text.Atoi.{print_int}
use cute_pcap_mcp.Base.Int.{ℤ, pos, lt_ℤ}
use cute_pcap_mcp.Errors.{
  Result, ok, failed, then_do, require, wrapped, err_analyzer_failed, err_output_limit_reached,
}
use cute_pcap_mcp.FilePaths.{FilePath}
use cute_pcap_mcp.Config.{Config}

pub record Moment : Type 0 where
  pub compact : Bytes
  pub rfc3339 : Bytes

pub record File : Type 0 where
  pub dir : Bytes
  pub name : Bytes
  pub content : Bytes

pub record Disk : Type 0 where
  pub dirs : List Bytes
  pub files : List File

pub record OutputArtifact : Type 0 where
  pub path : FilePath
  pub size_bytes : ℤ
  pub sha256 : Bytes
  pub content_type : Bytes
  pub generated_at : Bytes
  pub kind : Bytes

-- `captureIDFor`
unfoldable pub capture_id_for : Bytes → Moment → Bytes
capture_id_for sha256_hex now =
    (if is_empty sha256_hex then codes "nohash" else take 12 sha256_hex) ++ codes "-" ++ now.compact

unfoldable pub is_dir : Bytes → List Bytes → Bool
unfolding eq_bytes
is_dir name dirs = any (eq_bytes name) dirs

-- The name of an attempt, which the code counts from 0.
unfoldable pub name_of : Bytes → ℕ → Bytes
unfolding print_int
name_of base zero = base
name_of base (suc n) = base ++ b'-' ∷ print_int (pos (n + 2))

-- What os.Mkdir does.
pub data Made : Type 0 where
  created taken : Made
  refused : Bytes → Made

abbrev pub mkdir : (Bytes → Option Bytes) → Disk → Bytes → Made
mkdir refusal disk name =
    if is_dir name disk.dirs
    then taken
    else elim (refusal name) [ none ↦ created | some e ↦ refused e ]

abbrev pub add_dir : Bytes → Disk → Disk
add_dir name disk = record disk { dirs = name ∷ disk.dirs }

abbrev pub max_attempts : ℕ
max_attempts = 1000

module _ (refusal : Bytes → Option Bytes) where
  -- The loop, with the number of attempts that are left.
  unfoldable pub try_names : ℕ → ℕ → Bytes → Disk → Result (Bytes × Disk)
  unfolding name_of is_dir
  try_names zero attempt base disk = failed (
      wrapped err_analyzer_failed
        (codes "1000 collisions creating capture artifact dir for " ++ base))
  try_names (suc left) attempt base disk = elim (mkdir refusal disk (name_of base attempt)) [
    | created ↦ ok (name_of base attempt, add_dir (name_of base attempt) disk)
    | taken ↦ try_names left (suc attempt) base disk
    | refused e ↦ failed (wrapped err_analyzer_failed (codes "create capture artifact dir: " ++ e))
  ]

  unfoldable pub make_unique_dir : Bytes → Moment → Disk → Result (Bytes × Disk)
  unfolding try_names capture_id_for
  make_unique_dir sha256_hex now disk =
      try_names max_attempts 0 (capture_id_for sha256_hex now) disk

-- A file replaces one of the same place.
abbrev pub is_at : Bytes → Bytes → File → Bool
is_at dir name f = eq_bytes f.dir dir && eq_bytes f.name name

abbrev pub without {ℓ} : {A : Type ℓ} → (A → Bool) → List A → List A
without p [] = []
without p (x ∷ xs) = let rest = without p xs in if p x then rest else x ∷ rest

unfoldable pub remove_file : Bytes → Bytes → Disk → Disk
unfolding eq_bytes
remove_file dir name disk = record disk { files = without (is_at dir name) disk.files }

-- os.Remove leaves a directory that is not empty.
unfoldable pub remove_dir : Bytes → Disk → Disk
unfolding eq_bytes
remove_dir dir disk =
    if any (λ f. eq_bytes f.dir dir) disk.files
    then disk
    else record disk { dirs = without (eq_bytes dir) disk.dirs }

unfoldable pub put_file : File → Disk → Disk
unfolding remove_file
put_file f disk =
    let others = remove_file f.dir f.name disk in record others { files = f ∷ others.files }

abbrev pub artifact_of : (Bytes → Bytes) → FilePath → File → Bytes → Bytes → Moment → OutputArtifact
artifact_of sha256_hex root f content_type kind now = record {
  path = root ++ f.dir ∷ f.name ∷ [];
  size_bytes = pos (length f.content);
  sha256 = sha256_hex f.content;
  content_type = content_type;
  generated_at = now.rfc3339;
  kind = kind;
}

module _ (sha256_hex : Bytes → Bytes) (write_error : File → Option Bytes) (root : FilePath) where
  -- `writeArtifactFile`
  unfoldable pub write_artifact_file :
      File → Bytes → Bytes → Moment → Disk → Result (OutputArtifact × Disk)
  unfolding put_file
  write_artifact_file f content_type kind now disk = elim (write_error f) [
    | some e ↦ failed (wrapped err_analyzer_failed (codes "write " ++ f.name ++ codes ": " ++ e))
    | none ↦ ok (artifact_of sha256_hex root f content_type kind now, put_file f disk)
  ]

  abbrev pub json_file : Bytes → Bytes → File
  json_file dir body = record { dir = dir; name = codes "analysis.json"; content = body }

  abbrev pub summary_file : Bytes → Bytes → File
  summary_file dir body = record { dir = dir; name = codes "summary.md"; content = body }

  abbrev pub is_over : Config → ℤ → Bool
  is_over cfg total =
      lt_ℤ (pos 0) cfg.analysis.output_disk_budget_bytes
      && lt_ℤ cfg.analysis.output_disk_budget_bytes total

  abbrev over_detail : Config → ℤ → Bytes
  over_detail cfg total =
      codes "rendered artifacts would write "
      ++ print_int total
      ++ codes " bytes; exceeds analysis.output_disk_budget_bytes ("
      ++ print_int cfg.analysis.output_disk_budget_bytes
      ++ codes ")"

  -- What the writes leave on the disk, also where one fails.
  abbrev with_summary :
      OutputArtifact → Disk → Result (OutputArtifact × Disk) → Disk × Result (List OutputArtifact)
  with_summary a one (failed e) = (one, failed e)
  with_summary a one (ok (b, two)) = (two, ok (a ∷ b ∷ []))

  abbrev with_json :
      Bytes
      → Moment
      → Bytes
      → Disk
      → Result (OutputArtifact × Disk)
      → Disk × Result (List OutputArtifact)
  with_json dir now summary made (failed e) = (made, failed e)
  with_json dir now summary made (ok (a, one)) = with_summary a one (
      write_artifact_file (summary_file dir summary) (codes "text/markdown")
        (codes "summary_markdown") now one)

  abbrev in_dir :
      Moment → Bytes → Bytes → Disk → Result (Bytes × Disk) → Disk × Result (List OutputArtifact)
  in_dir now json summary disk (failed e) = (disk, failed e)
  in_dir now json summary disk (ok (dir, made)) = with_json dir now summary made (
      write_artifact_file (json_file dir json) (codes "application/json") (codes "analysis_json")
        now made)

  -- The writes of `writeAnalysisArtifacts` once the bodies are rendered.
  unfoldable pub write_bodies :
      (Bytes → Option Bytes)
      → Config
      → Bytes
      → Moment
      → Bytes
      → Bytes
      → Disk
      → Disk × Result (List OutputArtifact)
  unfolding make_unique_dir write_artifact_file print_int
  write_bodies refusal cfg hash now json summary disk =
      let total = pos (length json + length summary) in
      if is_over cfg total
      then (disk, failed (wrapped err_output_limit_reached (over_detail cfg total)))
      else in_dir now json summary disk (make_unique_dir refusal hash now disk)
