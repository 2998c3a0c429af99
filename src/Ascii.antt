-- ===== src/Ascii.antt =====
-- Printable strings of a capture file: `extractASCIIStrings` of
-- internal/pcap/analyzer.go. Offsets and lengths are natural numbers (a file is shorter than 2^63
-- bytes); the options are the integers that the caller gives. The redaction by regular expressions
-- is the parameter `redact`.
pub mod Fields
pub mod Chunks
pub mod Limits
mod Tests
use cute_pcap_mcp.Base.{
  ℕ, suc, ◌+◌, ◌-◌, Bool, true, false, ◌&&◌, ◌||◌, List, [], ◌∷◌, ◌++◌, Option, none, some, ltb,
  leb, ◌==◌, if◌then◌else◌, length, take,
}
use cute_pcap_mcp.Base.Text.{Bytes, codes}
use cute_pcap_mcp.Base.Int.{ℤ, pos_part, le_zero, lt_ℤ}

pub record Options : Type 0 where
  pub min_length : ℕ
  pub max_strings : ℕ
  pub max_bytes : ℕ
  pub redact_secrets : Bool

pub record AsciiString : Type 0 where
  pub offset : ℕ
  pub length : ℕ
  pub text : Bytes
  pub redacted : Bool

pub record Report : Type 0 where
  pub min_length : ℕ
  pub bytes_returned : ℕ
  pub strings : List AsciiString
  pub truncated : Bool
  pub redacted : Bool

-- The variables of the loop beside the report.
pub record Scan : Type 0 where
  pub report : Report
  pub offset : ℕ
  pub current_offset : ℕ
  pub current : Bytes
  pub current_length : ℕ

abbrev pub max_text_bytes : ℕ
max_text_bytes = 4096

abbrev pub default_min_length : ℕ
default_min_length = 4

abbrev pub truncation_mark : Bytes
truncation_mark = codes "...[truncated]"

unfoldable pub is_printable : ℕ → Bool
is_printable b = b == 9 || leb 0x20 b && leb b 0x7e

-- The defaults at the head of `extractASCIIStrings`.
pub record RawOptions : Type 0 where
  pub min_length : ℤ
  pub max_strings : ℤ
  pub max_bytes : ℤ
  pub redact_secrets : Bool

abbrev pub or_default : ℤ → ℕ → ℕ
or_default n d = if le_zero n then d else pos_part n

pub normalize : RawOptions → Options
normalize o = record {
  min_length = or_default o.min_length default_min_length;
  max_strings = or_default o.max_strings 1;
  max_bytes = or_default o.max_bytes 1024;
  redact_secrets = o.redact_secrets;
}

-- Whether `flush` asked its caller to return.
pub data Outcome : Type 0 where
  returned running : Scan → Outcome

abbrev pub state : Outcome → Scan
state (returned s) = s
state (running s) = s

-- `if flush() { return report }`, and what comes after it.
abbrev pub then_feed : Outcome → (Scan → Outcome) → Outcome
then_feed (returned s) k = returned s
then_feed (running s) k = k s

abbrev pub close : (Scan → Option Report) → Outcome → Option Report
close k (returned s) = some s.report
close k (running s) = k s

-- What ends a sequence of reads, and the reads of a file: each gives some bytes, and the last one
-- also `io.EOF` or another error.
pub data End : Type 0 where
  eof failed : End

pub data Reads : Type 0 where
  last : Bytes → End → Reads
  more : Bytes → Reads → Reads

abbrev pub advance : ℕ → Scan → Scan
advance n s = record s { offset = s.offset + n }

-- The deferred reset of `flush`, which runs on each of its returns.
abbrev pub reset : Report → Scan → Scan
reset r s = record s { report = r; current = []; current_length = 0 }

-- One byte of the inner loop; `offset` is the position of the byte in the file.
unfoldable pub grow : ℕ → ℕ → Scan → Scan
grow offset b s = record s {
  current_offset = if s.current_length == 0 then offset else s.current_offset;
  current_length = suc s.current_length;
  current = if ltb (length s.current) max_text_bytes then s.current ++ b ∷ [] else s.current;
}

abbrev pub empty_report : Options → Report
empty_report o = record {
  min_length = o.min_length;
  bytes_returned = 0;
  strings = [];
  truncated = false;
  redacted = false;
}

abbrev pub start : Options → Scan
start o = record {
  report = empty_report o;
  offset = 0;
  current_offset = 0;
  current = [];
  current_length = 0;
}

module _ (redact : Bytes → Bytes × Bool) where
  -- The text of a run after redaction, and whether it was redacted.
  pub shown : Options → Bytes → ℕ → Bytes × Bool
  shown o current n =
      let text = if ltb (length current) n then current ++ truncation_mark else current in
      if o.redact_secrets then redact text else (text, false)

  -- The part of `flush` after the test of the length. The Boolean asks the caller to stop.
  pub emit : Options → ℕ → Bytes → ℕ → Report → Report × Bool
  emit o offset current n r =
      let (text, hidden) = shown o current n in
      let r' : Report = record r { redacted = r.redacted || hidden } in
      let remaining = o.max_bytes - r.bytes_returned in
      if leb remaining 0
      then (record r' { truncated = true }, true)
      else let kept = take remaining text in
        let cut = r.truncated || ltb remaining (length text) in
        let entry : AsciiString = record {
          offset = offset;
          length = n;
          text = kept;
          redacted = hidden;
        } in
        let strings = r.strings ++ entry ∷ [] in
        let full = cut || leb o.max_strings (length strings) in
        (
          record r' {
            strings = strings;
            bytes_returned = r.bytes_returned + length kept;
            truncated = full;
          },
          full,
        )

  pub flush : Options → Scan → Outcome
  flush o s =
      if ltb s.current_length o.min_length
      then running (reset s.report s)
      else let (r, stop) = emit o s.current_offset s.current s.current_length s.report in
        if stop then returned (reset r s) else running (reset r s)

  -- The inner loop over `buf[i], ..., buf[n-1]`.
  pub feed : Options → ℕ → Bytes → Scan → Outcome
  feed o i [] s = running s
  feed o i (b ∷ bs) s = elim (is_printable b) [
    | true ↦ feed o (suc i) bs (grow (s.offset + i) b s)
    | false ↦ then_feed (flush o s) (λ s'. feed o (suc i) bs s')
  ]

  -- The rest of the last round, after the inner loop.
  pub finish : Options → End → Scan → Option Report
  finish o eof s = some (state (flush o s)).report
  finish o failed s = none

  -- The outer loop. `none` is the error of a read.
  pub scan : Options → Reads → Scan → Option Report
  scan o (last bs e) s = close (λ s'. finish o e (advance (length bs) s')) (feed o 0 bs s)
  scan o (more bs rest) s = close (λ s'. scan o rest (advance (length bs) s')) (feed o 0 bs s)

  unfoldable pub extract : RawOptions → Reads → Option Report
  unfolding scan feed flush emit shown grow finish normalize is_printable
  extract raw reads = let o = normalize raw in scan o reads (start o)
