-- ===== src/Config/Tests.antt =====
-- A configuration with a root of which only the root directory exists, and the theorems at it.
use cute_pcap_mcp.Base.{true, [], ◌∷◌, Option, none, some, ◌≡◌, refl, ◌↔◌, if◌then◌else◌}
use cute_pcap_mcp.Base.Text.{Bytes, codes, eq_bytes}
use cute_pcap_mcp.Base.Int.{pos}
use cute_pcap_mcp.FilePaths.{FilePath, path_contains, same_path, under_any}
use cute_pcap_mcp.FilePaths.Laws.{Extends, Some, under_any_iff}
use cute_pcap_mcp.Config.{
  ok, Stat, directory, missing, RawConfig, Config, Limits, normalize, normalize_limits, then_do,
  require,
}
use cute_pcap_mcp.Config.Laws.{IsValid, normalize-IsValid}

code : Unit {0}
unfolding normalize normalize_limits path_contains then_do require
code = tt

abbrev root : FilePath
root = codes "w" ∷ []

abbrev absolute : Bytes → Option FilePath
absolute text = if eq_bytes text (codes "/w") then some root else none

abbrev stat : FilePath → Stat
stat p = if same_path p root then directory else missing

abbrev no_limits : Limits
no_limits = record {
  command_timeout_seconds = pos 0;
  max_stdout_bytes = pos 0;
  max_packet_rows = pos 0;
  max_ascii_strings = pos 500;
  max_ascii_bytes = pos 0;
  max_zeek_records_per_log = pos 0;
  max_pcap_bytes = pos 0;
  max_concurrent_analyses = pos 0;
  tmp_disk_budget_bytes = pos 0;
  output_disk_budget_bytes = pos 0;
}

abbrev filled : Limits
filled = record {
  command_timeout_seconds = pos 20;
  max_stdout_bytes = pos 200000;
  max_packet_rows = pos 200;
  max_ascii_strings = pos 500;
  max_ascii_bytes = pos 200000;
  max_zeek_records_per_log = pos 100;
  max_pcap_bytes = pos 1073741824;
  max_concurrent_analyses = pos 2;
  tmp_disk_budget_bytes = pos 536870912;
  output_disk_budget_bytes = pos 268435456;
}

limits_filled : normalize_limits no_limits ≡ ok filled
unfolding code
limits_filled = refl

abbrev raw : RawConfig
raw = record {
  allowed_artifact_dirs = codes "/w" ∷ codes "/w" ∷ [];
  workspace = record {
    root = codes "/w";
    pcap_dir = [];
    output_dir = [];
    tmp_dir = [];
    keylog_dir = [];
  };
  analysis = no_limits;
}

abbrev accepted : Config
accepted = record {
  allowed_artifact_dirs = root ∷ (codes "w" ∷ codes "pcaps" ∷ []) ∷ [];
  workspace = record {
    root = some root;
    pcap_dir = some (codes "w" ∷ codes "pcaps" ∷ []);
    output_dir = some (codes "w" ∷ codes "output" ∷ []);
    tmp_dir = some (codes "w" ∷ codes "tmp" ∷ []);
    keylog_dir = none;
  };
  analysis = filled;
}

is_accepted : normalize absolute stat (λ p. some p) raw ≡ ok accepted
unfolding code
is_accepted = refl

normalize-IsValid_example : IsValid accepted
normalize-IsValid_example = normalize-IsValid absolute stat (λ p. some p) raw accepted is_accepted

abbrev inner : FilePath
inner = codes "w" ∷ codes "pcaps" ∷ codes "a.pcap" ∷ []

under_any_iff_example :
    (under_any inner accepted.allowed_artifact_dirs ≡ true)
    ↔ Some (λ d. Extends d inner) accepted.allowed_artifact_dirs
unfolding code
under_any_iff_example =
    under_any_iff inner accepted.allowed_artifact_dirs (refl, (refl, (refl, tt)))
