-- ===== src/Ascii/Limits.antt =====
-- The limits that a report keeps.
use mathlib.Core.Path.{subst}
use cute_pcap_mcp.Base.{
  ℕ, ◌+◌, ◌-◌, ◌≤◌, ◌<◌, Bool, true, false, List, [], ◌∷◌, ◌++◌, some, ◌≡◌, some_eq, refl, sym, ◌∙◌,
  ltb, leb, ◌||◌, length, All, All-append, length-append, length-take, Bool-cases, inl, inr, arith,
}
use cute_pcap_mcp.Base.Text.{Bytes}
use cute_pcap_mcp.Ascii.{
  Options, RawOptions, AsciiString, Report, Reads, End, eof, failed, empty_report, normalize, emit,
  shown, extract,
}
use cute_pcap_mcp.Ascii.Chunks.{contents, ending}
use cute_pcap_mcp.Ascii.Fields.{Field, emit_field, report_fields, split, extract_fields}

-- The bytes of the texts of a list of strings.
abbrev pub text_bytes : List AsciiString → ℕ
text_bytes [] = 0
text_bytes (a ∷ as') = length a.text + text_bytes as'

text_bytes-append :
    (xs ys : List AsciiString) → text_bytes (xs ++ ys) ≡ text_bytes xs + text_bytes ys
text_bytes-append [] ys = omega arith
text_bytes-append (x ∷ xs) ys = omega (arith, text_bytes-append xs ys)

abbrev pub IsLong : Options → AsciiString → Type 0
IsLong o a = o.min_length ≤ a.length

-- What holds of every report that is returned.
pub record IsWithin (o : Options) (r : Report) : Type 0 where
  pub counted : r.bytes_returned ≡ text_bytes r.strings
  pub bytes : r.bytes_returned ≤ o.max_bytes
  pub strings : length r.strings ≤ o.max_strings
  pub long : All (IsLong o) r.strings
  -- A report that is not marked as truncated has met no limit.
  pub complete : r.truncated ≡ false → length r.strings < o.max_strings

start-IsWithin : (raw : RawOptions) → IsWithin (normalize raw) (empty_report (normalize raw))
unfolding normalize
start-IsWithin raw = record {
  counted = refl;
  bytes = omega arith;
  strings = omega arith;
  long = tt;
  complete = λ e. ground arith;
}

module _ (o : Options) {r : Report} (h : IsWithin o r) (t : r.truncated ≡ false) where
  -- A report with one more string, which fits.
  push-IsWithin :
      (a : AsciiString) (cut hidden : Bool)
      → length a.text ≤ o.max_bytes - r.bytes_returned
      → IsLong o a
      → IsWithin o (record r {
        redacted = hidden;
        strings = r.strings ++ a ∷ [];
        bytes_returned = r.bytes_returned + length a.text;
        truncated = cut || leb o.max_strings (length (r.strings ++ a ∷ []));
      })
  push-IsWithin a cut hidden fits long = record {
    counted = omega (arith, text_bytes-append r.strings (a ∷ []), h.counted);
    bytes = omega (arith, h.bytes);
    strings = omega (arith, length-append r.strings (a ∷ []), h.complete t);
    long = All-append (IsLong o) r.strings (a ∷ []) h.long (long, tt);
    complete = λ e. ground arith;
  }

  full-IsWithin : (hidden : Bool) → IsWithin o (record r { redacted = hidden; truncated = true })
  full-IsWithin hidden = record {
    counted = h.counted;
    bytes = h.bytes;
    strings = h.strings;
    long = h.long;
    complete = λ e. cc;
  }

module _ (redact : Bytes → Bytes × Bool) (o : Options) where
  emit-IsWithin :
      (off : ℕ) (current : Bytes) (n : ℕ) (r : Report)
      → o.min_length ≤ n
      → IsWithin o r
      → r.truncated ≡ false
      → IsWithin o (emit redact o off current n r).0
  unfolding emit
  emit-IsWithin off current n r long h t =
      let text = (shown redact o current n).0 in
      elim (Bool-cases (leb (o.max_bytes - r.bytes_returned) 0)) [
        | inl p ↦ rw p (full-IsWithin o h t _)
        | inr p ↦ rw p (
            push-IsWithin o h t _ _ _
              (omega (arith, length-take (o.max_bytes - r.bytes_returned) text)) long)
      ]

  emit_field-IsWithin :
      (f : Field) (r : Report)
      → IsWithin o r
      → r.truncated ≡ false
      → IsWithin o (emit_field redact o f r).0
  unfolding emit_field
  emit_field-IsWithin f r h t = elim (Bool-cases (ltb (length f.bytes) o.min_length)) [
    | inl p ↦ rw p h
    | inr p ↦ rw p (emit-IsWithin f.at _ _ r (ground arith) h t)
  ]

  emit_field_runs_on :
      (f : Field) (r : Report)
      → r.truncated ≡ false
      → (emit_field redact o f r).1 ≡ false
      → (emit_field redact o f r).0.truncated ≡ false
  unfolding emit_field emit
  emit_field_runs_on f r t e = ground arith

  report_fields-IsWithin :
      (e : End) (fs : List Field) (r : Report) {r' : Report}
      → IsWithin o r
      → r.truncated ≡ false
      → report_fields redact o e fs r ≡ some r'
      → IsWithin o r'
  unfolding report_fields
  report_fields-IsWithin e [] r h t q = cc
  report_fields-IsWithin eof (f ∷ []) r h t q =
      subst (IsWithin o) (some_eq q) (emit_field-IsWithin f r h t)
  report_fields-IsWithin failed (f ∷ []) r h t q = cc
  report_fields-IsWithin e (f ∷ g ∷ fs) r h t q =
      let h' = emit_field-IsWithin f r h t in
      elim (Bool-cases (emit_field redact o f r).1) [
        | inl stop ↦ subst (IsWithin o) (some_eq (rw stop at q)) h'
        | inr on ↦
            report_fields-IsWithin e (g ∷ fs) (emit_field redact o f r).0 h'
              (emit_field_runs_on f r t on) (rw on at q)
      ]

-- A returned report counts the bytes of its texts, keeps both limits, holds only strings of the
-- minimal length, and is marked as truncated if it holds as many strings as it may.
pub extract-IsWithin :
    (redact : Bytes → Bytes × Bool) (raw : RawOptions) (reads : Reads) (r : Report)
    → extract redact raw reads ≡ some r
    → IsWithin (normalize raw) r
extract-IsWithin redact raw reads r e =
    report_fields-IsWithin redact (normalize raw) (ending reads) (split 0 (contents reads))
      (empty_report (normalize raw)) (start-IsWithin raw) refl
      (sym (extract_fields redact raw reads) ∙ e)
