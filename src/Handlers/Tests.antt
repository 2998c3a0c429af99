-- ===== src/Handlers/Tests.antt =====
-- Calls on a server with two slots, of which one is in use.
use cute_pcap_mcp.Base.{List, [], none, ◌≡◌}
use mathlib.Core.Option.{none}
use cute_pcap_mcp.Base.Text.{Bytes, codes}
use cute_pcap_mcp.Errors.{Result, ok}
use cute_pcap_mcp.Artifact.Tests.{config, hash}
use cute_pcap_mcp.Server.{Semaphore}
use cute_pcap_mcp.Outputs.{Disk, OutputArtifact}
use cute_pcap_mcp.Filter.{FilterInput}
use cute_pcap_mcp.Analyze.{AnalyzeOutput}
use cute_pcap_mcp.Analyze.Tests.{env, input}
use cute_pcap_mcp.Handlers.{analyze_handler}
use cute_pcap_mcp.Handlers.Laws.{IsHonest, analyze_handler-IsServed}

abbrev slots : Semaphore
slots = record { capacity = 2; in_use = 1 }

abbrev disk : Disk
disk = record { dirs = []; files = [] }

abbrev write : AnalyzeOutput Bytes → Disk → Disk × Result (List OutputArtifact)
write out d = (d, ok [])

abbrev filter_input : FilterInput
filter_input = record {
  path = codes "link";
  display_filter = codes "tcp";
  expected = record { sha256 = []; size_bytes = none };
}

analyze_handler-IsServed_example :
    ((analyze_handler env hash config write input slots disk).sem ≡ slots)
    × IsHonest env hash config
        (analyze_handler env hash config write input slots disk).reply.is_error
        (analyze_handler env hash config write input slots disk).reply.output
analyze_handler-IsServed_example = analyze_handler-IsServed env hash config write input slots disk
