-- ===== src/Artifact/Tests.antt =====
-- An artifact of five bytes under the allowed directory, given by a link outside it.
use cute_pcap_mcp.Base.{true, [], ◌∷◌, none, some, ◌≡◌, refl, if◌then◌else◌}
use cute_pcap_mcp.Base.Text.{Bytes, codes, eq_bytes, to_lower}
use cute_pcap_mcp.Base.Int.{pos}
use cute_pcap_mcp.Errors.{ok}
use cute_pcap_mcp.FilePaths.{FilePath, same_path}
use cute_pcap_mcp.Config.{Config}
use cute_pcap_mcp.Artifact.{
  Lookup, found, not_exist, FileInfo, ArtifactInfo, Expectations, inspect_artifact,
}
use cute_pcap_mcp.Artifact.Laws.{IsInspected, inspect_artifact-IsInspected}

code : Unit {0}
unfolding inspect_artifact eq_bytes to_lower same_path
code = tt

abbrev pub real : FilePath
real = codes "pcaps" ∷ codes "a.pcap" ∷ []

abbrev pub absolute : Bytes → Lookup FilePath
absolute text = found (text ∷ [])

abbrev pub links : FilePath → Lookup FilePath
links p = if same_path p (codes "link" ∷ []) then found real else not_exist

abbrev pub stat : FilePath → Lookup FileInfo
stat p = if same_path p real then found (record { size = pos 5; is_regular = true }) else not_exist

abbrev pub read : FilePath → Lookup Bytes
read p = found (codes "hello")

-- A stand-in for the hash.
abbrev pub hash : Bytes → Bytes
hash content = codes "ab"

abbrev pub config : Config
config = record {
  allowed_artifact_dirs = (codes "pcaps" ∷ []) ∷ [];
  workspace = record {
    root = none;
    pcap_dir = none;
    output_dir = none;
    tmp_dir = none;
    keylog_dir = none;
  };
  analysis = record {
    command_timeout_seconds = pos 20;
    max_stdout_bytes = pos 200000;
    max_packet_rows = pos 200;
    max_ascii_strings = pos 200;
    max_ascii_bytes = pos 200000;
    max_zeek_records_per_log = pos 100;
    max_pcap_bytes = pos 65536;
    max_concurrent_analyses = pos 2;
    tmp_disk_budget_bytes = pos 1048576;
    output_disk_budget_bytes = pos 1048576;
  };
}

abbrev expected : Expectations
expected = record { sha256 = codes "AB"; size_bytes = some (pos 5) }

abbrev artifact : ArtifactInfo
artifact = record { path = real; size_bytes = pos 5; sha256 = codes "ab" }

is_inspected :
    inspect_artifact absolute links stat read hash (codes "link") config expected ≡ ok artifact
unfolding code
is_inspected = refl

inspect_artifact-IsInspected_example :
    IsInspected absolute links stat read hash (codes "link") config expected artifact
inspect_artifact-IsInspected_example =
    inspect_artifact-IsInspected absolute links stat read hash (codes "link") config expected
      artifact is_inspected
