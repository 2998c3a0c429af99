-- ===== src/Zeek/Laws.antt =====
-- A log that is read back from its text.
use cute_pcap_mcp.Base.{
  ℕ, zero, suc, ◌+◌, ◌<◌, true, false, List, [], ◌∷◌, ◌++◌, map, some, ◌≡◌, refl, ap, ◌∙◌, leb, All,
  arith, length, length-append,
}
use mathlib.Core.Option.{some}
use cute_pcap_mcp.Base.Text.{Bytes, codes, has_prefix, trim_space}
use cute_pcap_mcp.Base.Text.Lines.{
  split, raw_lines, split-join_byte, raw_lines-unlines, drop_return_same,
}
use cute_pcap_mcp.Base.Text.Splits.{Lacks}
use cute_pcap_mcp.Base.Int.{ℤ, pos}
use cute_pcap_mcp.Errors.{ok}
use cute_pcap_mcp.Artifact.{found}
use cute_pcap_mcp.Zeek.{
  Log, Reader, unescape, directive_value, read_line, read_lines, start, parse_log, max_line_bytes,
  is_full, finish,
}
use cute_pcap_mcp.Zeek.Print.{
  Row, Document, columns, print_row, header, print_document, IsLine, IsRow, IsData, IsPrintable,
  record_of, log_of, keep, keep-take,
}

split-print_row : (r : Row) → IsRow r → split (print_row r) (9 ∷ []) ≡ columns r
split-print_row (v, vs) h = split-join_byte 9 v vs h.0 h.1

abbrev tabbed : Log → Reader
tabbed log = record { separator = 9 ∷ []; log = log }

module _ (redact : Bytes → Bytes) (max : ℤ) where
  read_separator :
      (r : Reader)
      → read_line redact max (codes "#separator " ++ 92 ∷ codes "x09") r
        ≡ record r { separator = 9 ∷ [] }
  unfolding read_line directive_value unescape trim_space
  read_separator r = refl

  read_path :
      (n : Bytes) (log : Log)
      → trim_space n ≡ n
      → read_line redact max (codes "#path" ++ 9 ∷ n) (tabbed log)
        ≡ tabbed (record log { name = n })
  unfolding read_line directive_value
  read_path n log h = ap (λ t. tabbed (record log { name = t })) h

  read_fields :
      (f : Row) (log : Log)
      → IsRow f
      → read_line redact max (codes "#fields" ++ 9 ∷ print_row f) (tabbed log)
        ≡ tabbed (record log { fields = columns f })
  unfolding read_line directive_value
  read_fields f log h = ap (λ t. tabbed (record log { fields = t })) (split-print_row f h)

  read_types :
      (f : Row) (log : Log)
      → IsRow f
      → read_line redact max (codes "#types" ++ 9 ∷ print_row f) (tabbed log)
        ≡ tabbed (record log { types = columns f })
  unfolding read_line directive_value
  read_types f log h = ap (λ t. tabbed (record log { types = t })) (split-print_row f h)

  -- One line of the scanner.
  read_lines-line :
      (r s : Reader) (l : Bytes) (rest : List Bytes)
      → IsLine l
      → read_line redact max l r ≡ s
      → read_lines redact max r (l ∷ rest) ≡ read_lines redact max s rest
  unfolding read_lines
  read_lines-line r s l rest h e =
      let fits : leb max_line_bytes (length l) ≡ false = ground (arith, h.2) in
      rw (fits, drop_return_same l h.1, e) refl

All-left : (xs ys : List Bytes) → All IsLine (xs ++ ys) → All IsLine xs
All-left [] ys h = tt
All-left (x ∷ xs) ys (p, h) = (p, All-left xs ys h)

All-right : (xs ys : List Bytes) → All IsLine (xs ++ ys) → All IsLine ys
All-right [] ys h = h
All-right (x ∷ xs) ys (p, h) = All-right xs ys h

breaks : (ls : List Bytes) → All IsLine ls → All (Lacks b'\n') ls
breaks [] h = tt
breaks (l ∷ ls) (p, h) = (p.0, breaks ls h)

-- The first lines of a document.
abbrev opened : Document → Log
opened d = record {
  name = d.name;
  fields = columns d.fields;
  types = columns d.types;
  records = [];
  truncated = false;
}

module _ (redact : Bytes → Bytes) (m : ℕ) where
  keep_full :
      (log : Log) (rs : List Row)
      → keep redact 0 (record log { truncated = true }) rs ≡ record log { truncated = true }
  keep_full log [] = refl
  keep_full log (r ∷ rs) = refl

  read_row-full :
      (log : Log) (r : Row)
      → has_prefix (print_row r) (codes "#") ≡ false
      → length log.records ≡ suc m
      → read_line redact (pos (suc m)) (print_row r) (tabbed log)
        ≡ tabbed (record log { truncated = true })
  unfolding read_line
  read_row-full log r h e =
      let full : is_full redact (pos (suc m)) log ≡ true = ground (arith, e) in rw (h, full) refl

  read_row-room :
      (log : Log) (r : Row)
      → IsData r
      → length log.records < suc m
      → read_line redact (pos (suc m)) (print_row r) (tabbed log)
        ≡ tabbed (record log { records = log.records ++ record_of redact log.fields r ∷ [] })
  unfolding read_line
  read_row-room log r (row, h) e =
      let free : is_full redact (pos (suc m)) log ≡ false = ground (arith, e) in
      rw (h, free, split-print_row r row) refl

  read_rows :
      (room : ℕ) (log : Log) (rs : List Row)
      → All IsLine (map print_row rs)
      → All IsData rs
      → length log.records + room ≡ suc m
      → read_lines redact (pos (suc m)) (tabbed log) (map print_row rs)
        ≡ some (tabbed (keep redact room log rs))
  unfolding read_lines
  read_rows zero log [] h k e = refl
  read_rows (suc room) log [] h k e = refl
  read_rows zero log (r ∷ rs) (h, hs) (k, ks) e =
      let cut = record log { truncated = true } in
      let row = read_row-full log r k.1 (omega (arith, e)) in
      read_lines-line redact (pos (suc m)) (tabbed log) (tabbed cut) (print_row r)
        (map print_row rs) h row
      ∙ read_rows zero cut rs hs ks e
      ∙ ap (λ t. some (tabbed t)) (keep_full log rs)
  read_rows (suc room) log (r ∷ rs) (h, hs) (k, ks) e =
      let more = record log { records = log.records ++ record_of redact log.fields r ∷ [] } in
      let row = read_row-room log r k (omega (arith, e)) in
      let count : length more.records + room ≡ suc m =
        omega (arith, e, length-append log.records (record_of redact log.fields r ∷ [])) in
      read_lines-line redact (pos (suc m)) (tabbed log) (tabbed more) (print_row r)
        (map print_row rs) h row
      ∙ read_rows room more rs hs ks count

  -- The header of a document leaves the reader with its name, fields and types.
  read_header :
      (file_name : Bytes) (d : Document) (rest : List Bytes)
      → IsPrintable d
      → All IsLine (header d)
      → read_lines redact (pos (suc m)) (start file_name) (header d ++ rest)
        ≡ read_lines redact (pos (suc m)) (tabbed (opened d)) rest
  read_header file_name d rest p (a, (b, (c, (e, _)))) =
      let limit = pos (suc m) in
      let f = print_row d.fields in
      let t = print_row d.types in
      let begun = start file_name in
      let named : Log = record begun.log { name = d.name } in
      let fielded : Log = record named { fields = columns d.fields } in
      read_lines-line redact limit begun begun _ _ a (read_separator redact limit begun)
      ∙ read_lines-line redact limit begun (tabbed named) _ _ b
          (read_path redact limit d.name begun.log p.name)
      ∙ read_lines-line redact limit (tabbed named) (tabbed fielded) _ _ c
          (read_fields redact limit d.fields named p.fields)
      ∙ read_lines-line redact limit (tabbed fielded) (tabbed (opened d)) _ _ e
          (read_types redact limit d.types fielded p.types)

  parse_log-found :
      (file_name text : Bytes) (max : ℤ)
      → parse_log redact max file_name (found text)
        ≡ finish redact max (read_lines redact max (start file_name) (raw_lines text))
  unfolding parse_log
  parse_log-found file_name text max = refl

  -- A document that can be printed (no column holds a tab, no line a line break or too many bytes, no row
  -- looks like a directive, the name has no white space around it) is read back under any positive limit: its
  -- name, fields and types, the record of each of its rows up to the limit, and the mark of truncation exactly
  -- if there are more rows.
  pub parse_log-print_document :
      (file_name : Bytes) (d : Document)
      → IsPrintable d
      → parse_log redact (pos (suc m)) file_name (found (print_document d))
        ≡ ok (log_of redact (suc m) d)
  parse_log-print_document file_name d p =
      let limit = pos (suc m) in
      let rows_lines = All-right (header d) (map print_row d.rows) p.lines in
      let rows_data = p.rows in
      let none_yet : length (opened d).records + suc m ≡ suc m = omega arith in
      let lines =
        raw_lines-unlines (header d ++ map print_row d.rows)
          (breaks (header d ++ map print_row d.rows) p.lines) in
      let whole =
        ap (read_lines redact limit (start file_name)) lines
        ∙ read_header file_name d (map print_row d.rows) p
            (All-left (header d) (map print_row d.rows) p.lines)
        ∙ read_rows (suc m) (opened d) d.rows rows_lines rows_data none_yet
        ∙ ap (λ t. some (tabbed t)) (keep-take redact (suc m) (opened d) d.rows refl) in
      parse_log-found file_name (print_document d) limit ∙ ap (finish redact limit) whole
