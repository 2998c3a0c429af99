-- ===== src/Zeek.antt =====
-- The logs of Zeek: `parseZeekLog`, `zeekDirectiveValue` and `zeekUnescape` of
-- internal/pcap/analyzer.go. The parameter `redact` is the redaction by regular expressions; a record,
-- which is a map in the program, is a list of its keys in order with one value each.
pub mod Print
pub mod Laws
pub mod Report
mod Tests
use cute_pcap_mcp.Base.{
  ℕ, zero, suc, ◌+◌, ◌-◌, ◌*◌, ◌%◌, ◌/◌, ◌<◌, ◌≤◌, Bool, true, false, not, ◌&&◌, ◌||◌, List, [],
  ◌∷◌, ◌++◌, map, Option, none, some, ◌≡◌, ◌≢◌, refl, sym, ap, ◌∙◌, ◌↔◌, ◌⊎◌, inl, inr, ltb, leb,
  ◌==◌, if◌then◌else◌, All, All-append, arith, Bool-cases, Option-cases, some_eq, length, any, all,
  take, drop, get_elem?, length-append, length-take, not-true,
}
use cute_pcap_mcp.Base.Text.{
  Bytes, codes, eq_bytes, has_prefix, without_prefix, trim_space, is_empty,
}
use cute_pcap_mcp.Base.Text.Lines.{split, raw_lines, drop_return}
use cute_pcap_mcp.Base.Int.{ℤ, pos, lt_ℤ, le_ℤ}
use cute_pcap_mcp.Errors.{Result, ok, failed, other}
use cute_pcap_mcp.Artifact.{Lookup, found, not_exist, broken}

abbrev pub Record : Type 0
Record = List (Bytes × Bytes)

-- `ZeekLog`
pub record Log : Type 0 where
  pub name : Bytes
  pub fields : List Bytes
  pub types : List Bytes
  pub records : List Record
  pub truncated : Bool

-- record[key], and record[key] = value.
unfoldable pub value_of : Bytes → Record → Bytes
unfolding eq_bytes
value_of key [] = []
value_of key ((k, v) ∷ r) = if eq_bytes k key then v else value_of key r

unfoldable pub put : Bytes → Bytes → Record → Record
unfolding eq_bytes
put key value [] = (key, value) ∷ []
put key value ((k, v) ∷ r) =
    let more = (k, v) ∷ put key value r in if eq_bytes k key then (k, value) ∷ r else more

-- What stands at a place of a value, and how many more bytes it takes.
abbrev unescape_at : Bytes → ℕ × ℕ
unescape_at [] = (0, 0)
unescape_at (c ∷ s) =
    if has_prefix (c ∷ s) (92 ∷ 92 ∷ [])
    then (92, 1)
    else if has_prefix (c ∷ s) (92 ∷ codes "x09")
    then (9, 3)
    else if has_prefix (c ∷ s) (92 ∷ codes "x20")
    then (32, 3)
    else if has_prefix (c ∷ s) (92 ∷ codes "x2c")
    then (44, 3)
    else (c, 0)

unfoldable pub unescape_from : ℕ → Bytes → Bytes
unescape_from skip [] = []
unescape_from (suc skip) (c ∷ s) = unescape_from skip s
unescape_from zero (c ∷ s) = let (b, skip) = unescape_at (c ∷ s) in b ∷ unescape_from skip s

-- `zeekUnescape`
unfoldable pub unescape : Bytes → Bytes
unfolding unescape_from has_prefix
unescape value = unescape_from 0 value

abbrev directive_rest : Bytes → Bytes → Option Bytes
directive_rest separator rest =
    if is_empty rest
    then none
    else if has_prefix rest (codes " ")
    then some (without_prefix rest (codes " "))
    else if not (is_empty separator) && has_prefix rest separator
    then some (without_prefix rest separator)
    else none

-- `zeekDirectiveValue`
unfoldable pub directive_value : Bytes → Bytes → Bytes → Option Bytes
unfolding has_prefix without_prefix
directive_value line directive separator =
    if has_prefix line directive
    then directive_rest separator (without_prefix line directive)
    else none

-- The variables of the loop.
pub record Reader : Type 0 where
  pub separator : Bytes
  pub log : Log

abbrev pub with_value : Option Bytes → Reader → (Bytes → Reader) → Reader
with_value none r k = r
with_value (some v) r k = k v

module _ (redact : Bytes → Bytes) where
  abbrev pub fill_record : List Bytes → List Bytes → Record → Record
  fill_record [] values record' = record'
  fill_record (f ∷ fs) [] record' = fill_record fs [] (put f [] record')
  fill_record (f ∷ fs) (v ∷ vs) record' = fill_record fs vs (put f (redact v) record')

abbrev pub start : Bytes → Reader
start name = record {
  separator = 9 ∷ [];
  log = record { name = name; fields = []; types = []; records = []; truncated = false };
}

abbrev pub max_line_bytes : ℕ
max_line_bytes = 1048576

module _ (redact : Bytes → Bytes) (max_records : ℤ) where
  abbrev pub is_full : Log → Bool
  is_full log = lt_ℤ (pos 0) max_records && le_ℤ max_records (pos (length log.records))

  abbrev pub read_row : Bytes → Reader → Reader
  read_row line r =
      if is_full r.log then record r { log = record r.log { truncated = true } } else record r {
        log = record r.log {
          records =
              r.log.records ++ fill_record redact r.log.fields (split line r.separator) [] ∷ [];
        };
      }

  abbrev pub read_directive : Bytes → Reader → Reader
  read_directive line r =
      if has_prefix line (codes "#separator")
      then with_value (directive_value line (codes "#separator") (codes " ")) r
          (λ v. record r { separator = unescape (trim_space v) })
      else if has_prefix line (codes "#path")
      then with_value (directive_value line (codes "#path") r.separator) r
          (λ v. record r { log = record r.log { name = trim_space v } })
      else if has_prefix line (codes "#fields")
      then with_value (directive_value line (codes "#fields") r.separator) r
          (λ v. record r { log = record r.log { fields = split v r.separator } })
      else if has_prefix line (codes "#types")
      then with_value (directive_value line (codes "#types") r.separator) r
          (λ v. record r { log = record r.log { types = split v r.separator } })
      else r

  -- The switch over a line. Its first four cases are lines that start with '#'.
  unfoldable pub read_line : Bytes → Reader → Reader
  read_line line r = if has_prefix line (codes "#") then read_directive line r else read_row line r

  -- The loop of the scanner, which fails at a line that does not fit in its buffer.
  unfoldable pub read_lines : Reader → List Bytes → Option Reader
  read_lines r [] = some r
  read_lines r (raw ∷ rest) =
      let on = read_lines (read_line (drop_return raw) r) rest in
      if leb max_line_bytes (length raw) then none else on

  abbrev pub finish : Option Reader → Result Log
  finish none = failed (other (codes "bufio.Scanner: token too long"))
  finish (some r) = ok r.log

  -- `parseZeekLog` of a file with the given name, without its extension.
  unfoldable pub parse_log : Bytes → Lookup Bytes → Result Log
  unfolding read_lines read_line raw_lines drop_return unescape directive_value split put trim_space
  parse_log name (found content) = finish (read_lines (start name) (raw_lines content))
  parse_log name not_exist = failed (other (codes "no such file or directory"))
  parse_log name (broken text) = failed (other text)
