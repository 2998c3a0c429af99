-- ===== src/Command/Tests.antt =====
-- A program that prints five bytes and stops at a cut capture.
use cute_pcap_mcp.Base.{true, [], ◌∷◌, Option, some, ◌≡◌, refl}
use mathlib.Core.Option.{some}
use cute_pcap_mcp.Base.Text.{codes, contains, to_lower}
use cute_pcap_mcp.Base.Int.{pos}
use cute_pcap_mcp.Command.{Call, Process, exited, run_tolerant, is_truncated_diagnostic}
use cute_pcap_mcp.Command.Laws.{IsTolerated, run_tolerant-IsTolerated}

abbrev pub call : Call
call = record { name = codes "tshark"; args = []; env = [] }

abbrev pub cut : Process
cut = record {
  stdout = codes "ab" ∷ codes "cde" ∷ [];
  stderr = codes "tshark: The file appears to have been cut short in the middle of a packet." ∷ [];
  ending = exited;
}

abbrev cut_program : Call → Option Process
cut_program c = some cut

code : Unit {0}
unfolding run_tolerant is_truncated_diagnostic contains to_lower
code = tt

salvages : (run_tolerant cut_program (codes "20s") (pos 4) call).truncated ≡ true
unfolding code
salvages = refl

keeps_four : (run_tolerant cut_program (codes "20s") (pos 4) call).output.stdout ≡ codes "abcd"
unfolding code
keeps_four = refl

run_tolerant-IsTolerated_example :
    IsTolerated cut_program (pos 4) call (run_tolerant cut_program (codes "20s") (pos 4) call)
run_tolerant-IsTolerated_example = run_tolerant-IsTolerated cut_program (codes "20s") (pos 4) call
