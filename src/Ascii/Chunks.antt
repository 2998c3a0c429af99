-- ===== src/Ascii/Chunks.antt =====
-- How a file is split into reads does not matter.
use native.Mathlib.Nat.{add_assoc, add_comm, add-zero, add-suc}
use cute_pcap_mcp.Base.{
  ℕ, suc, ◌+◌, Bool, true, false, [], ◌∷◌, ◌++◌, ◌≡◌, refl, sym, ◌∙◌, ◌⊎◌, length, Bool-cases, inl,
  inr, arith,
}
use cute_pcap_mcp.Base.Text.{Bytes}
use cute_pcap_mcp.Ascii.{
  Options, RawOptions, Scan, Outcome, returned, running, then_feed, close, Reads, last, more, End,
  eof, failed, is_printable, advance, grow, start, normalize, flush, feed, finish, scan, extract,
}

-- The whole content of a file, and how its reading ends.
abbrev pub contents : Reads → Bytes
contents (last bs e) = bs
contents (more bs rest) = bs ++ contents rest

abbrev pub ending : Reads → End
ending (last bs e) = e
ending (more bs rest) = ending rest

abbrev on_state : (Scan → Scan) → Outcome → Outcome
on_state f (returned s) = returned (f s)
on_state f (running s) = running (f s)

pub Outcome-cases : (r : Outcome) → ((s : Scan) × (r ≡ returned s)) ⊎ ((s : Scan) × (r ≡ running s))
Outcome-cases (returned s) = inl (s, refl)
Outcome-cases (running s) = inr (s, refl)

module _ (redact : Bytes → Bytes × Bool) (o : Options) where
  abbrev pub feed' : ℕ → Bytes → Scan → Outcome
  feed' = feed redact o

  pub feed-printable :
      (i b : ℕ) (bs : Bytes) (s : Scan)
      → is_printable b ≡ true
      → feed' i (b ∷ bs) s ≡ feed' (suc i) bs (grow (s.offset + i) b s)
  unfolding feed
  feed-printable i b bs s p = rw (p, feed)

  pub feed-other :
      (i b : ℕ) (bs : Bytes) (s : Scan)
      → is_printable b ≡ false
      → feed' i (b ∷ bs) s ≡ then_feed (flush redact o s) (feed' (suc i) bs)
  unfolding feed
  feed-other i b bs s p = elim (Outcome-cases (flush redact o s)) [
    | inl (s', q) ↦ rw (p, q, feed)
    | inr (s', q) ↦ rw (p, q, feed)
  ]

  feed-append :
      (i : ℕ) (xs ys : Bytes) (s : Scan)
      → feed' i (xs ++ ys) s ≡ then_feed (feed' i xs s) (feed' (i + length xs) ys)
  feed-append i [] ys s = unfold feed in rw add-zero refl
  feed-append i (x ∷ xs) ys s =
      let e : i + suc (length xs) ≡ suc i + length xs = omega arith in
      rw e (elim (Bool-cases (is_printable x)) [
        | inl p ↦
            simp (feed-printable i x _ s p) (feed-append (suc i) xs ys (grow (s.offset + i) x s))
        | inr p ↦ elim (Outcome-cases (flush redact o s)) [
          | inl (s', q) ↦ simp (feed-other i x _ s p, q)
          | inr (s', q) ↦ simp (feed-other i x _ s p, q) (feed-append (suc i) xs ys s')
        ]
      ])

  flush-advance :
      (n : ℕ) (s : Scan) → flush redact o (advance n s) ≡ on_state (advance n) (flush redact o s)
  unfolding flush
  flush-advance n s = ground arith

  grow-advance :
      (n i b : ℕ) (s : Scan)
      → grow ((advance n s).offset + i) b (advance n s) ≡ advance n (grow (s.offset + (n + i)) b s)
  unfolding grow
  grow-advance n i b s = rw add_assoc

  feed-advance :
      (n i : ℕ) (bs : Bytes) (s : Scan)
      → feed' i bs (advance n s) ≡ on_state (advance n) (feed' (n + i) bs s)
  feed-advance n i [] s = unfold feed in refl
  feed-advance n i (b ∷ bs) s = elim (Bool-cases (is_printable b)) [
    | inl p ↦ rw (
      feed-printable i b bs (advance n s) p,
      feed-printable (n + i) b bs s p,
      grow-advance n i b s,
      feed-advance n (suc i) bs (grow (s.offset + (n + i)) b s),
      add-suc,
    )
    | inr p ↦ elim (Outcome-cases (flush redact o s)) [
      | inl (s', q) ↦
          rw (feed-other i b bs (advance n s) p, feed-other (n + i) b bs s p, flush-advance, q)
      | inr (s', q) ↦ rw (
        feed-other i b bs (advance n s) p,
        feed-other (n + i) b bs s p,
        flush-advance,
        q,
        feed-advance n (suc i) bs s',
        add-suc,
      )
    ]
  ]

  pub finish-advance :
      (e : End) (n : ℕ) (s : Scan) → finish redact o e (advance n s) ≡ finish redact o e s
  unfolding finish
  finish-advance failed n s = refl
  finish-advance eof n s = elim (Outcome-cases (flush redact o s)) [
    | inl (s', q) ↦ rw (flush-advance, q)
    | inr (s', q) ↦ rw (flush-advance, q)
  ]

  close-advance :
      (e : End) (n : ℕ) (r : Outcome)
      → close (finish redact o e) (on_state (advance n) r) ≡ close (finish redact o e) r
  close-advance e n (returned s) = refl
  close-advance e n (running s) = finish-advance e n s

  scan_last :
      (bs : Bytes) (e : End) (s : Scan)
      → scan redact o (last bs e) s ≡ close (finish redact o e) (feed' 0 bs s)
  unfolding scan
  scan_last bs e s = elim (Outcome-cases (feed' 0 bs s)) [
    | inl (s', q) ↦ rw q
    | inr (s', q) ↦ rw (q, finish-advance e)
  ]

  pub scan_whole :
      (reads : Reads) (s : Scan)
      → scan redact o reads s ≡ close (finish redact o (ending reads)) (feed' 0 (contents reads) s)
  unfolding scan
  scan_whole (last bs e) s = scan_last bs e s
  scan_whole (more bs rest) s = elim (Outcome-cases (feed' 0 bs s)) [
    | inl (s', q) ↦ rw (feed-append, q)
    | inr (s', q) ↦
        rw (feed-append 0 bs (contents rest) s, q)
          (scan_whole rest (advance (length bs) s')
            ∙ rw (feed-advance (length bs) 0 (contents rest) s', add_comm 0 (length bs))
                (close-advance (ending rest) (length bs) _))
  ]

-- However a file is split into reads, the report is that of its whole content read at once.
pub extract_whole :
    (redact : Bytes → Bytes × Bool) (raw : RawOptions) (reads : Reads)
    → extract redact raw reads ≡ extract redact raw (last (contents reads) (ending reads))
unfolding extract
extract_whole redact raw reads =
    let o = normalize raw in
    scan_whole redact o reads (start o)
    ∙ sym (scan_whole redact o (last (contents reads) (ending reads)) (start o))
