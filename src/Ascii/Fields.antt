-- ===== src/Ascii/Fields.antt =====
-- What the extraction reports, without its loop: the capture is split at the bytes that are not
-- printable, and the fields that are long enough are reported in order until a limit is met.
use mathlib.Core.List.{append-nil, append_assoc}
use native.Mathlib.Nat.{add-zero}
use cute_pcap_mcp.Base.{
  ℕ, zero, suc, ◌+◌, ◌<◌, Bool, true, false, List, [], ◌∷◌, ◌++◌, Option, some, none, ◌≡◌, refl, ap,
  ◌∙◌, ltb, if◌then◌else◌, length, take, all, length-append, Bool-cases, inl, inr, arith,
}
use cute_pcap_mcp.Base.Text.{Bytes}
use cute_pcap_mcp.Ascii.{
  Options, RawOptions, Report, Scan, Outcome, returned, running, then_feed, close, Reads, End, eof,
  failed, is_printable, max_text_bytes, reset, grow, empty_report, start, normalize, emit, flush,
  feed, finish, extract,
}
use cute_pcap_mcp.Ascii.Chunks.{contents, ending, scan_whole, feed-printable, feed-other}

pub record Field : Type 0 where
  pub at : ℕ
  pub bytes : Bytes

-- The first field starts one byte earlier.
pub grow_first : ℕ → ℕ → List Field → List Field
grow_first i b [] = []
grow_first i b (f ∷ fs) = record { at = i; bytes = b ∷ f.bytes } ∷ fs

-- The maximal runs of printable bytes, with the empty ones, and where each starts.
unfoldable pub split : ℕ → Bytes → List Field
unfolding grow_first
split i [] = record { at = i; bytes = [] } ∷ []
split i (b ∷ bs) =
    if is_printable b
    then grow_first i b (split (suc i) bs)
    else record { at = i; bytes = [] } ∷ split (suc i) bs

module _ (redact : Bytes → Bytes × Bool) (o : Options) where
  -- A field that is too short is passed over; of a long one 4096 bytes are kept.
  unfoldable pub emit_field : Field → Report → Report × Bool
  emit_field f r =
      if ltb (length f.bytes) o.min_length
      then (r, false)
      else emit redact o f.at (take max_text_bytes f.bytes) (length f.bytes) r

  abbrev pub on_end : End → Report × Bool → Option Report
  on_end eof (r, stop) = some r
  on_end failed _ = none

  -- Only the last field is not followed by another byte, so a failed read loses it.
  unfoldable pub report_fields : End → List Field → Report → Option Report
  report_fields e [] r = none
  report_fields e (f ∷ []) r = on_end e (emit_field f r)
  report_fields e (f ∷ g ∷ fs) r =
      let rest = report_fields e (g ∷ fs) (emit_field f r).0 in
      if (emit_field f r).1 then some (emit_field f r).0 else rest

split-all :
    (a : ℕ) (w : Bytes) → all is_printable w ≡ true → split a w ≡ record { at = a; bytes = w } ∷ []
unfolding split
split-all a [] h = refl
split-all a (b ∷ w) h = ground (arith, split-all (suc a) w)

split-append :
    (a b : ℕ) (w bs : Bytes)
    → all is_printable w ≡ true
    → is_printable b ≡ false
    → split a (w ++ b ∷ bs) ≡ record { at = a; bytes = w } ∷ split (suc (a + length w)) bs
unfolding split
split-append a b [] bs h p = rw (p, add-zero)
split-append a b (x ∷ w) bs h p =
    let e : a + suc (length w) ≡ suc a + length w = omega arith in
    rw e (ground (arith, split-append (suc a) b w bs))

take-nil : (n : ℕ) → take {A = ℕ} n [] ≡ []
take-nil zero = refl
take-nil (suc n) = refl

-- One byte more, and at most 4096 are kept.
take-snoc :
    (n : ℕ) (w : Bytes) (b : ℕ)
    → (if ltb (length (take n w)) n then take n w ++ b ∷ [] else take n w) ≡ take n (w ++ b ∷ [])
take-snoc zero [] b = refl
take-snoc (suc n) [] b = ground (arith, take-nil n)
take-snoc zero (x ∷ w) b = refl
take-snoc (suc n) (x ∷ w) b = ground (arith, take-snoc n w b)

all-append :
    (w : Bytes) (b : ℕ)
    → all is_printable w ≡ true
    → is_printable b ≡ true
    → all is_printable (w ++ b ∷ []) ≡ true
all-append [] b h p = ground arith
all-append (x ∷ w) b h p = ground (arith, all-append w b)

min_length_pos : (raw : RawOptions) → 0 < (normalize raw).min_length
unfolding normalize
min_length_pos raw = ground arith

-- The loop has read the printable bytes `w`, which start at `a`, of the field that it is in.
record IsInside (s : Scan) (i a : ℕ) (w : Bytes) : Type 0 where
  printable : all is_printable w ≡ true
  current : s.current ≡ take max_text_bytes w
  current_length : s.current_length ≡ length w
  current_offset : 0 < length w → s.current_offset ≡ a
  here : s.offset + i ≡ a + length w

module _ {s : Scan} {i a : ℕ} {w : Bytes} (m : IsInside s i a w) where
  grow-IsInside :
      (b : ℕ) → is_printable b ≡ true → IsInside (grow (s.offset + i) b s) (suc i) a (w ++ b ∷ [])
  unfolding grow
  grow-IsInside b p = record {
    printable = all-append w b m.printable p;
    current = rw m.current (take-snoc max_text_bytes w b);
    current_length = omega (arith, length-append w (b ∷ []), m.current_length);
    current_offset = λ h. ground (arith, m.current_length, m.current_offset, m.here);
    here = omega (arith, length-append w (b ∷ []), m.here);
  }

  reset-IsInside : (r : Report) → IsInside (reset r s) (suc i) (suc (a + length w)) []
  reset-IsInside r = record {
    printable = refl;
    current = refl;
    current_length = refl;
    current_offset = λ h. absurd (omega arith);
    here = omega (arith, m.here);
  }

  -- What `flush` does there is what is done for the field.
  flush-IsInside :
      (redact : Bytes → Bytes × Bool) (o : Options)
      → 0 < o.min_length
      → flush redact o s ≡ (
          let (r, stop) = emit_field redact o (record { at = a; bytes = w }) s.report in
          if stop then returned (reset r s) else running (reset r s))
  unfolding flush emit_field
  flush-IsInside redact o h = ground (arith, m.current, m.current_length, m.current_offset)

split_cons : (i : ℕ) (bs : Bytes) → (f : Field) × (fs : List Field) × (split i bs ≡ f ∷ fs)
unfolding split
split_cons i [] = (record { at = i; bytes = [] }, [], refl)
split_cons i (b ∷ bs) = elim (Bool-cases (is_printable b)) [
  | inl p ↦
      let (f, fs, e) = split_cons (suc i) bs in
      (record { at = i; bytes = b ∷ f.bytes }, fs, rw (p, e))
  | inr p ↦ (record { at = i; bytes = [] }, split (suc i) bs, rw p)
]

module _ (redact : Bytes → Bytes × Bool) (o : Options) (e : End) where
  report_fields-split :
      (f : Field) (i : ℕ) (bs : Bytes) (r : Report)
      → report_fields redact o e (f ∷ split i bs) r ≡ (
          if (emit_field redact o f r).1
          then some (emit_field redact o f r).0
          else report_fields redact o e (split i bs) (emit_field redact o f r).0)
  unfolding report_fields
  report_fields-split f i bs r = let (g, fs, q) = split_cons i bs in rw q refl

  close_if :
      (stop : Bool) (s s' : Scan) (k : Scan → Outcome)
      → close (finish redact o e) (then_feed (if stop then returned s else running s') k)
        ≡ (if stop then some s.report else close (finish redact o e) (k s'))
  close_if true s s' k = refl
  close_if false s s' k = refl

finish-IsInside :
    (redact : Bytes → Bytes × Bool) (o : Options)
    → 0 < o.min_length
    → (e : End) (s : Scan) (i a : ℕ) (w : Bytes) → IsInside s i a w
    → finish redact o e s
      ≡ on_end redact o e (emit_field redact o (record { at = a; bytes = w }) s.report)
unfolding finish
finish-IsInside redact o pos failed s i a w m = refl
finish-IsInside redact o pos eof s i a w m = ground (arith, flush-IsInside m redact o pos)

module _ (redact : Bytes → Bytes × Bool) (o : Options) (pos : 0 < o.min_length) (e : End) where
  feed_fields :
      (bs : Bytes) (i a : ℕ) (w : Bytes) (s : Scan)
      → IsInside s i a w
      → close (finish redact o e) (feed redact o i bs s)
        ≡ report_fields redact o e (split a (w ++ bs)) s.report
  feed_fields [] i a w s m =
      rw (append-nil, split-all a w m.printable)
        (unfold feed report_fields in finish-IsInside redact o pos e s i a w m)
  feed_fields (b ∷ bs) i a w s m = elim (Bool-cases (is_printable b)) [
    | inl p ↦ rw (feed-printable redact o i b bs s p) (
        feed_fields bs (suc i) a (w ++ b ∷ []) (grow (s.offset + i) b s) (grow-IsInside m b p)
        ∙ unfold grow in
          ap (λ t. report_fields redact o e (split a t) s.report) (append_assoc w (b ∷ []) bs))
    | inr p ↦
        let f : Field = record { at = a; bytes = w } in
        let r : Report = (emit_field redact o f s.report).0 in
        rw
          (
            feed-other redact o i b bs s p,
            flush-IsInside m redact o pos,
            split-append a b w bs m.printable p,
            report_fields-split redact o e f (suc (a + length w)) bs s.report,
            close_if redact o e (emit_field redact o f s.report).1 (reset r s) (reset r s)
                (feed redact o (suc i) bs),
          )
          (ap (λ t. if (emit_field redact o f s.report).1 then some r else t)
            (feed_fields bs (suc i) (suc (a + length w)) [] (reset r s) (reset-IsInside m r)))
  ]

-- The report is that of the fields of the whole content, in order.
pub extract_fields :
    (redact : Bytes → Bytes × Bool) (raw : RawOptions) (reads : Reads)
    → extract redact raw reads
      ≡ report_fields redact
          (normalize raw)
          (ending reads)
          (split 0 (contents reads))
          (empty_report (normalize raw))
unfolding extract
extract_fields redact raw reads =
    let o = normalize raw in
    scan_whole redact o reads (start o)
    ∙ feed_fields redact o (min_length_pos raw) (ending reads) (contents reads) 0 0 [] (start o)
        (record {
          printable = refl;
          current = refl;
          current_length = refl;
          current_offset = λ h. refl;
          here = refl;
        })
