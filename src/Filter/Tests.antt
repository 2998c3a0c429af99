-- ===== src/Filter/Tests.antt =====
-- A filter that matches a packet and one that matches none.
use cute_pcap_mcp.Base.{[], ◌∷◌, Option, none, some, ◌≡◌, refl, length}
use mathlib.Core.Option.{none, some}
use cute_pcap_mcp.Base.Text.{Bytes, codes, trim_space}
use cute_pcap_mcp.Base.Text.Decimal.{decimal}
use cute_pcap_mcp.Base.Int.{pos}
use cute_pcap_mcp.Config.{Config}
use cute_pcap_mcp.Artifact.{ArtifactInfo}
use cute_pcap_mcp.Artifact.Tests.{real, config}
use cute_pcap_mcp.Command.{Call, Process, Ending, finished}
use cute_pcap_mcp.Outputs.{Disk}
use cute_pcap_mcp.Outputs.Tests.{noon, nothing_refused}
use cute_pcap_mcp.Filter.{System, FilterRun, run_filter}
use cute_pcap_mcp.Filter.Laws.{IsOutcome, run_filter-IsOutcome}

abbrev with_output : Config
with_output = record config {
  workspace = record config.workspace { output_dir = some (codes "out" ∷ []) };
}

abbrev source : ArtifactInfo
source = record { path = real; size_bytes = pos 5; sha256 = codes "ab" }

abbrev empty_disk : Disk
empty_disk = record { dirs = []; files = [] }

abbrev prints : Bytes → Bytes → Ending → Call → Option Process
prints out err ending c = some (record { stdout = out ∷ []; stderr = err ∷ []; ending = ending })

abbrev system : (Call → Option Process) → System
system program = record {
  program = program;
  timeout = codes "20s";
  prepare = λ root. none;
  refusal = nothing_refused;
  written = λ c. some (codes "pcap");
  read_error = λ p. none;
  sha256_hex = λ s. codes "cd";
  quote = λ s. s;
  to_int = λ s. none;
}

abbrev pub matching : System
matching = system (prints (codes "1") [] finished)

abbrev no_match : System
no_match = system (prints [] [] finished)

abbrev run : System → FilterRun
run m = run_filter m with_output (codes "tcp") noon source empty_disk

code : Unit {0}
unfolding run_filter decimal trim_space
code = tt

keeps_one : length (run matching).disk.files ≡ 1
unfolding code
keeps_one = refl

cleans_up : (run no_match).disk ≡ empty_disk
unfolding code
cleans_up = refl

run_filter-IsOutcome_example :
    IsOutcome matching with_output
      (codes "tcp")
      noon
      source
      empty_disk
      (run matching).disk
      (run matching).result
run_filter-IsOutcome_example =
    run_filter-IsOutcome matching with_output (codes "tcp") noon source empty_disk tt
