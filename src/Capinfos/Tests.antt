-- ===== src/Capinfos/Tests.antt =====
-- A count in a text, and a summary of two lines.
use cute_pcap_mcp.Base.{List, [], ◌∷◌, ◌++◌, Option, none, some, ◌≡◌, refl, arith}
use mathlib.Core.Option.{none, some}
use cute_pcap_mcp.Base.Text.{Bytes, codes}
use cute_pcap_mcp.Base.Text.Atoi.{print_int}
use cute_pcap_mcp.Base.Text.Decimal.{decimal}
use cute_pcap_mcp.Base.Int.{ℤ, pos}
use cute_pcap_mcp.Capinfos.{CaptureSummary, parse_leading_int64, parse_capinfos, count_in}
use cute_pcap_mcp.Capinfos.Laws.{parse_leading_int64-print_int}

abbrev numeral : Bytes → Bytes
numeral s = s

abbrev no_int : Bytes → Option ℤ
no_int s = none

abbrev shown : Option (CaptureSummary Bytes) → List Bytes
shown none = []
shown (some s) = print_int s.packet_count ∷ s.duration_seconds ∷ s.file_type ∷ []

reads :
    shown (
      parse_capinfos [] numeral no_int (
        codes "File type: pcap"
        ++ b'\n' ∷ codes "Number of packets:   12 k"
        ++ b'\n' ∷ codes "Capture duration: 1.5 seconds"))
    ≡ codes "12" ∷ codes "1.5" ∷ codes "pcap" ∷ []
unfolding parse_capinfos print_int decimal
reads = refl

counts : count_in [] numeral no_int ([] ∷ codes "Number of packets: 7" ∷ []) ≡ pos 7
unfolding count_in
counts = refl

parse_leading_int64-print_int_example :
    parse_leading_int64 [] numeral no_int (print_int (pos 12) ++ codes " k") ≡ pos 12
parse_leading_int64-print_int_example =
    parse_leading_int64-print_int [] numeral no_int (pos 12) (codes " k") (ground arith)
      (ground arith)
