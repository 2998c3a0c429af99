-- ===== src/Capinfos.antt =====
-- The text that capinfos prints: internal/pcap/capinfos.go, and `countPacketsWithCapinfos` of
-- internal/pcap/filter.go. Floating-point numbers are a parameter: `to_float` is the value that
-- strconv.ParseFloat gives for a numeral, and `to_int` the conversion of that value to int64.
pub mod Laws
mod Tests
use cute_pcap_mcp.Base.{
  ℕ, zero, suc, ◌+◌, ◌-◌, ◌*◌, ◌%◌, ◌/◌, ◌<◌, ◌≤◌, Bool, true, false, not, ◌&&◌, ◌||◌, List, [],
  ◌∷◌, ◌++◌, map, Option, none, some, ◌≡◌, ◌≢◌, refl, sym, ap, ◌∙◌, ◌↔◌, ◌⊎◌, inl, inr, ltb, leb,
  ◌==◌, if◌then◌else◌, All, All-append, arith, Bool-cases, Option-cases, some_eq, length, any, all,
  take, drop, get_elem?, length-append, length-take, not-true,
}
use mathlib.Core.Option.{none, some}
use cute_pcap_mcp.Base.Text.{Bytes, codes, eq_bytes, to_lower, trim_space, has_prefix, is_empty}
use cute_pcap_mcp.Base.Text.Lines.{split, cut_at}
use cute_pcap_mcp.Base.Text.Atoi.{atoi}
use cute_pcap_mcp.Base.Text.Decimal.{is_digit}
use cute_pcap_mcp.Base.Int.{ℤ, pos}
use cute_pcap_mcp.Artifact.{ArtifactInfo, print_path}
use cute_pcap_mcp.FilePaths.{FilePath}
use cute_pcap_mcp.Command.{Call, Process, Run, run_command}

-- The digits in front of a text, and what follows them.
unfoldable pub digits : Bytes → Bytes
digits [] = []
digits (c ∷ s) = let rest = digits s in if is_digit c then c ∷ rest else []

unfoldable pub after_digits : Bytes → Bytes
after_digits [] = []
after_digits (c ∷ s) = let rest = after_digits s in if is_digit c then rest else c ∷ s

abbrev pub fraction : Bytes → Bytes
fraction [] = []
fraction (c ∷ s) = if c == b'.' && not (is_empty (digits s)) then c ∷ digits s else []

abbrev pub unsigned_number : Bytes → Bytes
unsigned_number s = if is_empty (digits s) then [] else digits s ++ fraction (after_digits s)

abbrev signed : ℕ → Bytes → Bytes
signed sign number = if is_empty number then [] else sign ∷ number

-- `leadingNumber.FindString`
unfoldable pub leading_number : Bytes → Bytes
unfolding digits after_digits
leading_number [] = []
leading_number (c ∷ s) =
    if c == b'-' || c == b'+' then signed c (unsigned_number s) else unsigned_number (c ∷ s)

pub record CaptureSummary (F : Type 0) : Type 0 where
  pub packet_count : ℤ
  pub duration_seconds : F
  pub start_time : Bytes
  pub end_time : Bytes
  pub data_byte_rate : Bytes
  pub packet_rate : Bytes
  pub file_type : Bytes
  pub encapsulation : Bytes
  pub snapshot_length : ℤ
  pub average_packet_size : F
  pub file_size_bytes : ℤ
  pub raw : Bytes

module _ {F : Type 0} (zero_float : F) (to_float : Bytes → F) (to_int : Bytes → Option ℤ) where
  abbrev pub int_of : Bytes → ℤ
  int_of [] = pos 0
  int_of (c ∷ s) = elim (atoi (c ∷ s)) [
    | some n ↦ n
    | none ↦ elim (to_int (c ∷ s)) [ some n ↦ n | none ↦ pos 0 ]
  ]

  unfoldable pub parse_leading_int64 : Bytes → ℤ
  unfolding leading_number atoi
  parse_leading_int64 s = int_of (leading_number s)

  abbrev float_of : Bytes → F
  float_of [] = zero_float
  float_of (c ∷ s) = to_float (c ∷ s)

  unfoldable pub parse_leading_float : Bytes → F
  unfolding leading_number
  parse_leading_float s = float_of (leading_number s)

  abbrev pub empty_summary : Bytes → CaptureSummary F
  empty_summary raw = record {
    packet_count = pos 0;
    duration_seconds = zero_float;
    start_time = [];
    end_time = [];
    data_byte_rate = [];
    packet_rate = [];
    file_type = [];
    encapsulation = [];
    snapshot_length = pos 0;
    average_packet_size = zero_float;
    file_size_bytes = pos 0;
    raw = raw;
  }

  -- The switch over the key of a line.
  unfoldable pub set_field : Bytes → Bytes → CaptureSummary F → CaptureSummary F
  unfolding eq_bytes parse_leading_int64 parse_leading_float
  set_field key value s =
      if eq_bytes key (codes "number of packets")
      then record s { packet_count = parse_leading_int64 value }
      else if eq_bytes key (codes "capture duration")
      then record s { duration_seconds = parse_leading_float value }
      else if eq_bytes key (codes "first packet time")
      then record s { start_time = value }
      else if eq_bytes key (codes "last packet time")
      then record s { end_time = value }
      else if eq_bytes key (codes "data byte rate")
      then record s { data_byte_rate = value }
      else if eq_bytes key (codes "average packet rate")
      then record s { packet_rate = value }
      else if eq_bytes key (codes "file type")
      then record s { file_type = value }
      else if eq_bytes key (codes "file encapsulation")
      then record s { encapsulation = value }
      else if eq_bytes key (codes "packet size limit")
      then record s { snapshot_length = parse_leading_int64 value }
      else if eq_bytes key (codes "average packet size")
      then record s { average_packet_size = parse_leading_float value }
      else s

  abbrev set_cut : Option (Bytes × Bytes) → CaptureSummary F → CaptureSummary F
  set_cut none s = s
  set_cut (some (key, value)) s = set_field (to_lower (trim_space key)) (trim_space value) s

  -- The body of the loop; a line without a colon, the empty one included, is passed over.
  unfoldable pub read_line : Bytes → CaptureSummary F → CaptureSummary F
  unfolding cut_at to_lower trim_space set_field
  read_line line s = set_cut (cut_at b':' (trim_space line)) s

  unfoldable pub read_lines : List Bytes → CaptureSummary F → CaptureSummary F
  unfolding read_line
  read_lines [] s = s
  read_lines (l ∷ ls) s = read_lines ls (read_line l s)

  unfoldable pub parse_capinfos : Bytes → Option (CaptureSummary F)
  unfolding read_lines trim_space split
  parse_capinfos raw =
      if is_empty (trim_space raw)
      then none
      else some (read_lines (split raw (b'\n' ∷ [])) (empty_summary raw))

  abbrev sized : ArtifactInfo → Option (CaptureSummary F) → Option (CaptureSummary F)
  sized artifact none = none
  sized artifact (some s) = some (record s { file_size_bytes = artifact.size_bytes })

  unfoldable pub capture_summary : Bytes → ArtifactInfo → Option (CaptureSummary F)
  unfolding parse_capinfos
  capture_summary raw artifact = sized artifact (parse_capinfos raw)

  abbrev count_or : Option (Bytes × Bytes) → ℤ → ℤ
  count_or none rest = rest
  count_or (some (key, value)) rest = parse_leading_int64 (trim_space value)

  -- The loop of `countPacketsWithCapinfos`.
  unfoldable pub count_in : List Bytes → ℤ
  unfolding trim_space to_lower has_prefix cut_at parse_leading_int64
  count_in [] = pos 0
  count_in (l ∷ ls) =
      let line = trim_space l in
      let rest = count_in ls in
      if has_prefix (to_lower line) (codes "number of packets")
      then count_or (cut_at b':' line) rest
      else rest

  abbrev count_run : Run → ℤ
  count_run r = elim r.error [
    | none ↦ count_in (split r.output.stdout (b'\n' ∷ []))
    | some e ↦ pos 0
  ]

  unfoldable pub count_packets : (Call → Option Process) → Bytes → Bytes → ℤ
  unfolding count_in run_command split
  count_packets program timeout path = count_run (
      run_command program timeout (pos 65536)
        (record { name = codes "capinfos"; args = codes "-c" ∷ codes "-M" ∷ path ∷ []; env = [] }))
