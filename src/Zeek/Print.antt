-- ===== src/Zeek/Print.antt =====
-- Logs as Zeek writes them, with tabs between the columns.
use cute_pcap_mcp.Base.{
  ℕ, zero, suc, ◌<◌, true, false, List, [], ◌∷◌, ◌++◌, map, ◌≡◌, ltb, All, arith, length, take,
}
use mathlib.Core.List.{append-nil, append_assoc}
use cute_pcap_mcp.Base.Text.{Bytes, codes, has_prefix, trim_space}
use cute_pcap_mcp.Base.Text.Lines.{join_byte, unlines}
use cute_pcap_mcp.Base.Text.Splits.{Lacks}
use cute_pcap_mcp.Zeek.{Record, Log, fill_record, max_line_bytes}

-- A row has one column or more.
abbrev pub Row : Type 0
Row = Bytes × List Bytes

abbrev pub columns : Row → List Bytes
columns (v, vs) = v ∷ vs

pub record Document : Type 0 where
  pub name : Bytes
  pub fields : Row
  pub types : Row
  pub rows : List Row

abbrev pub print_row : Row → Bytes
print_row (v, vs) = join_byte 9 v vs

abbrev pub header : Document → List Bytes
header d =
    (codes "#separator " ++ 92 ∷ codes "x09")
    ∷ (codes "#path" ++ 9 ∷ d.name)
    ∷ (codes "#fields" ++ 9 ∷ print_row d.fields)
    ∷ (codes "#types" ++ 9 ∷ print_row d.types)
    ∷ []

abbrev pub print_document : Document → Bytes
print_document d = unlines (header d ++ map print_row d.rows)

abbrev pub IsLine : Bytes → Type 0
IsLine l = Lacks b'\n' l × Lacks b'\r' l × (length l < max_line_bytes)

abbrev pub IsRow : Row → Type 0
IsRow r = Lacks 9 r.0 × All (Lacks 9) r.1

abbrev pub IsData : Row → Type 0
IsData r = IsRow r × (has_prefix (print_row r) (codes "#") ≡ false)

-- No column holds a tab, no line a line break or more bytes than the scanner takes, no row looks like a
-- directive, and the name has no white space around it.
pub record IsPrintable (d : Document) : Type 0 where
  pub lines : All IsLine (header d ++ map print_row d.rows)
  pub name : trim_space d.name ≡ d.name
  pub fields : IsRow d.fields
  pub types : IsRow d.types
  pub rows : All IsData d.rows

module _ (redact : Bytes → Bytes) where
  -- The record of a row under the fields.
  abbrev pub record_of : List Bytes → Row → Record
  record_of fields r = fill_record redact fields (columns r) []

  -- The log that a document stands for, with as many records as there is room.
  abbrev pub log_of : ℕ → Document → Log
  log_of room d = record {
    name = d.name;
    fields = columns d.fields;
    types = columns d.types;
    records = map (record_of (columns d.fields)) (take room d.rows);
    truncated = ltb room (length d.rows);
  }

  -- The rows kept one by one.
  abbrev pub keep : ℕ → Log → List Row → Log
  keep zero log [] = log
  keep zero log (r ∷ rs) = record log { truncated = true }
  keep (suc room) log [] = log
  keep (suc room) log (r ∷ rs) =
      keep room (record log { records = log.records ++ record_of log.fields r ∷ [] }) rs

  pub keep-take :
      (room : ℕ) (log : Log) (rs : List Row)
      → log.truncated ≡ false
      → keep room log rs ≡ record log {
        records = log.records ++ map (record_of log.fields) (take room rs);
        truncated = ltb room (length rs);
      }
  keep-take zero log [] e = ground (arith, append-nil log.records)
  keep-take zero log (r ∷ rs) e = ground (arith, append-nil log.records)
  keep-take (suc room) log [] e = ground (arith, append-nil log.records)
  keep-take (suc room) log (r ∷ rs) e =
      let x = record_of log.fields r in
      let more = map (record_of log.fields) (take room rs) in
      let ih = keep-take room (record log { records = log.records ++ x ∷ [] }) rs e in
      ground (arith, ih, append_assoc log.records (x ∷ []) more)
