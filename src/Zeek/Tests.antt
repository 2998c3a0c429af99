-- ===== src/Zeek/Tests.antt =====
-- A log of two rows and its parse, with room for one record.
use cute_pcap_mcp.Base.{
  zero, Bool, true, ◌&&◌, List, [], ◌∷◌, ◌++◌, map, ◌≡◌, refl, ltb, All, arith, length, all,
}
use cute_pcap_mcp.Base.Text.{trim_space, Bytes, codes, has_prefix, trim_space}
use cute_pcap_mcp.Base.Text.Splits.{Lacks, lacks, lacks-Lacks}
use cute_pcap_mcp.Base.Int.{pos}
use cute_pcap_mcp.Errors.{ok}
use cute_pcap_mcp.Artifact.{found}
use cute_pcap_mcp.Zeek.{max_line_bytes, parse_log}
use cute_pcap_mcp.Zeek.Print.{
  Document, IsLine, IsPrintable, header, print_row, print_document, log_of,
}
use cute_pcap_mcp.Zeek.Laws.{parse_log-print_document}

abbrev document : Document
document = record {
  name = codes "dns";
  fields = (codes "uid", codes "query" ∷ []);
  types = (codes "string", codes "string" ∷ []);
  rows = (codes "C1", codes "a.example" ∷ []) ∷ (codes "C2", codes "-" ∷ []) ∷ [];
}

abbrev same : Bytes → Bytes
same s = s

abbrev is_line : Bytes → Bool
is_line l = lacks b'\n' l && (lacks b'\r' l && ltb (length l) max_line_bytes)

is_line-IsLine : (l : Bytes) → is_line l ≡ true → IsLine l
is_line-IsLine l h = (
  lacks-Lacks b'\n' l (ground (arith, h)),
  lacks-Lacks b'\r' l (ground (arith, h)),
  ground (arith, h),
)

are_lines-IsLine : (ls : List Bytes) → all is_line ls ≡ true → All IsLine ls
are_lines-IsLine [] h = tt
are_lines-IsLine (l ∷ ls) h =
    (is_line-IsLine l (ground (arith, h)), are_lines-IsLine ls (ground (arith, h)))

abbrev of_tabs : (s : Bytes) → lacks 9 s ≡ true → Lacks 9 s
of_tabs = lacks-Lacks 9

document-IsPrintable : IsPrintable document
unfolding trim_space has_prefix
document-IsPrintable = record {
  lines = are_lines-IsLine (header document ++ map print_row document.rows) refl;
  name = refl;
  fields = (of_tabs (codes "uid") refl, (of_tabs (codes "query") refl, tt));
  types = (of_tabs (codes "string") refl, (of_tabs (codes "string") refl, tt));
  rows = (
    ((of_tabs (codes "C1") refl, (of_tabs (codes "a.example") refl, tt)), refl),
    (((of_tabs (codes "C2") refl, (of_tabs (codes "-") refl, tt)), refl), tt),
  );
}

parse_log-print_document_example :
    parse_log same (pos 1) (codes "dns") (found (print_document document))
    ≡ ok (log_of same 1 document)
parse_log-print_document_example =
    parse_log-print_document same zero (codes "dns") document document-IsPrintable

cut : (log_of same 1 document).truncated ≡ true
cut = refl
