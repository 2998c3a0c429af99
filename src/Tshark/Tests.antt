-- ===== src/Tshark/Tests.antt =====
-- A capture for which the filter of the packet rows is rejected.
use cute_pcap_mcp.Base.{Bool, false, List, [], ◌∷◌, Option, some, ◌≡◌, refl, if◌then◌else◌}
use mathlib.Core.Option.{some}
use cute_pcap_mcp.Base.Text.{Bytes, codes, eq_bytes}
use cute_pcap_mcp.Base.Int.{pos}
use cute_pcap_mcp.Errors.{ok}
use cute_pcap_mcp.Artifact.{Lookup, found}
use cute_pcap_mcp.Artifact.Tests.{real}
use cute_pcap_mcp.Command.{Call, Process, finished, exited}
use cute_pcap_mcp.Tshark.{run_tshark, run_packet_summaries, run_report}
use cute_pcap_mcp.Tshark.Laws.{IsPartial, table_ends, run_report-IsPartial}

abbrev is_filtered : List Bytes → Bool
is_filtered [] = false
is_filtered (a ∷ rest) = eq_bytes a (codes "-Y")

abbrev program : Call → Option Process
program c = some (
    if is_filtered c.args
    then record { stdout = []; stderr = codes "invalid display filter" ∷ []; ending = exited }
    else record { stdout = codes "eth frames:1" ∷ []; stderr = []; ending = finished })

abbrev no_rows : Bytes → Lookup (List (List Bytes))
no_rows raw = found []

abbrev same : Bytes → Bytes
same s = s

prints_hierarchy :
    run_tshark program (codes "20s") (pos 1000) no_rows same real []
    ≡ ok (codes "eth frames:1", false)
unfolding run_tshark eq_bytes
prints_hierarchy = refl

run_report-IsPartial_example :
    IsPartial program
      (codes "20s")
      (pos 1000)
      no_rows
      same
      (codes "eth frames:1")
      false
      (table_ends program (codes "20s") (pos 1000) no_rows same real [])
      (run_packet_summaries program
        (codes "20s")
        (pos 1000)
        no_rows
        same
        real
        (pos 200)
        (codes "tcp.prt")
        [])
      (run_report program (codes "20s") (pos 1000) no_rows same real (pos 200) (codes "tcp.prt") [])
run_report-IsPartial_example =
    run_report-IsPartial program (codes "20s") (pos 1000) no_rows same real (pos 200)
      (codes "tcp.prt") [] (codes "eth frames:1") false prints_hierarchy
