-- ===== src/Diagnose/Resets/Silence.antt =====
-- The bytes that the reset detector counts between the ACK and the RST, and when it reports.
use cute_pcap_mcp.Base.{
  ℕ, ◌+◌, ◌<◌, not, ◌&&◌, List, [], ◌∷◌, Option, none, some, ◌≡◌, refl, sym, ap, ◌∙◌, ◌↔◌, inl, inr,
  if◌then◌else◌, All, arith, Bool-cases, some_eq,
}
use cute_pcap_mcp.Base.Int.{
  ℤ, pos, negsuc, pos_part, neg_part, half_word, add64, wrap, ◌+ℤ◌, eq_ℤ, eq_ℤ_iff,
}
use cute_pcap_mcp.Diagnose.{Packet, Flow, FlowGroup, Symptom}
use cute_pcap_mcp.Diagnose.Windows.{is_forward, is_backward}
use cute_pcap_mcp.Diagnose.Resets.{
  handshake, AppBytes, in_window, count_bytes, app_bytes, reset_symptom, no_handshake, no_bytes,
  silent_reset, decide_reset, detect_reset, if_silent,
}

add64_pos : (m n : ℕ) → m + n < half_word → add64 (pos m) (pos n) ≡ pos (m + n)
unfolding add64 wrap ◌+ℤ◌
add64_pos m n h = ground arith

add64_natural :
    (m : ℕ) (z : ℤ)
    → neg_part z ≡ 0
    → m + pos_part z < half_word
    → add64 (pos m) z ≡ pos (m + pos_part z)
add64_natural m (pos n) h k = add64_pos m n k
add64_natural m (negsuc n) h k = absurd (omega arith)

abbrev pub total : List Packet → ℕ
total [] = 0
total (p ∷ ps) = pos_part p.tcp_len + total ps

-- No length is negative, and their sum fits in an int64.
pub record HasLengths (ps : List Packet) : Type 0 where
  pub natural : All (λ p. neg_part p.tcp_len ≡ 0) ps
  pub fits : total ps < half_word

module _ (flow : Flow) (ack rst : Packet) where
  -- The payload that a packet adds to each counter.
  abbrev pub sent : Packet → ℕ
  sent p = if in_window ack rst p && is_forward flow p then pos_part p.tcp_len else 0

  abbrev pub received : Packet → ℕ
  received p =
      if in_window ack rst p && is_backward flow p && not p.rst then pos_part p.tcp_len else 0

  abbrev sum : (Packet → ℕ) → List Packet → ℕ
  sum f [] = 0
  sum f (p ∷ ps) = f p + sum f ps

  count_bytes_exact :
      (m n : ℕ) (p : Packet)
      → neg_part p.tcp_len ≡ 0
      → m + pos_part p.tcp_len < half_word
      → n + pos_part p.tcp_len < half_word
      → count_bytes flow ack rst p (record { client = pos m; server = pos n })
        ≡ record { client = pos (m + sent p); server = pos (n + received p) }
  unfolding count_bytes
  count_bytes_exact m n p h a b =
      ground (arith, add64_natural m p.tcp_len h a, add64_natural n p.tcp_len h b)

  app_bytes_exact :
      (m n : ℕ) (ps : List Packet)
      → All (λ p. neg_part p.tcp_len ≡ 0) ps
      → m + total ps < half_word
      → n + total ps < half_word
      → app_bytes flow ack rst (record { client = pos m; server = pos n }) ps
        ≡ record { client = pos (m + sum sent ps); server = pos (n + sum received ps) }
  unfolding app_bytes
  app_bytes_exact m n [] h a b = ground arith
  app_bytes_exact m n (p ∷ ps) (h, hs) a b =
      ap (λ c. app_bytes flow ack rst c ps) (count_bytes_exact m n p h (omega arith) (omega arith))
      ∙ (app_bytes_exact (m + sent p) (n + received p) ps hs (ground arith) (ground arith)
          ∙ ground arith)

  -- No packet of the window but a RST of the server carries bytes.
  abbrev pub IsSilent : List Packet → Type 0
  IsSilent ps = All (λ p. (sent p ≡ 0) × (received p ≡ 0)) ps

  sums-IsSilent : (ps : List Packet) → sum sent ps ≡ 0 → sum received ps ≡ 0 → IsSilent ps
  sums-IsSilent [] h k = tt
  sums-IsSilent (p ∷ ps) h k =
      ((omega arith, omega arith), sums-IsSilent ps (omega arith) (omega arith))

  IsSilent-sums : (ps : List Packet) → IsSilent ps → (sum sent ps ≡ 0) × (sum received ps ≡ 0)
  IsSilent-sums [] h = (refl, refl)
  IsSilent-sums (p ∷ ps) ((a, b), h) = let (c, d) = IsSilent-sums ps h in (omega arith, omega arith)

-- What a reported reset shows: the four packets of the loop, with silence between ACK and RST.
pub record IsSilentReset (g : FlowGroup) (s : Symptom) : Type 0 where
  pub syn : Packet
  pub synack : Packet
  pub ack : Packet
  pub rst : Packet
  pub found :
      handshake g.flow no_handshake g.packets
      ≡ record { syn = some syn; synack = some synack; ack = some ack; rst = some rst }
  pub silent : IsSilent g.flow ack rst g.packets
  pub same : s ≡ reset_symptom g syn ack rst no_bytes

pub if_silent-some :
    (g : FlowGroup) (syn ack rst : Packet) (b : AppBytes) (s : Symptom)
    → if_silent g syn ack rst b ≡ some s
    → (b ≡ no_bytes) × (s ≡ reset_symptom g syn ack rst no_bytes)
unfolding if_silent
if_silent-some g syn ack rst b s e =
    elim (Bool-cases (eq_ℤ b.client (pos 0) && eq_ℤ b.server (pos 0))) [
      | inl z ↦
          let empty : b ≡ no_bytes =
            ground (arith, eq_ℤ_iff b.client (pos 0), eq_ℤ_iff b.server (pos 0)) in
          (empty, sym (some_eq (rw empty at e)))
      | inr z ↦ absurd (ground arith)
    ]

pub decide_reset-some :
    (g : FlowGroup) (syn synack ack rst : Option Packet) (s : Symptom)
    → decide_reset g syn synack ack rst ≡ some s
    → ((p : Packet) × (q : Packet) × (r : Packet) × (t : Packet) × (syn ≡ some p)
        × (synack ≡ some q)
        × (ack ≡ some r)
        × (rst ≡ some t)
        × (silent_reset g p r t ≡ some s))
unfolding decide_reset
decide_reset-some g none b c d s e = cc
decide_reset-some g (some p) none c d s e = cc
decide_reset-some g (some p) (some q) none d s e = cc
decide_reset-some g (some p) (some q) (some r) none s e = cc
decide_reset-some g (some p) (some q) (some r) (some t) s e =
    (p, q, r, t, refl, refl, refl, refl, e)

bytes_from_none :
    (g : FlowGroup) (ack rst : Packet)
    → HasLengths g.packets
    → app_bytes g.flow ack rst no_bytes g.packets ≡ record {
      client = pos (sum g.flow ack rst (sent g.flow ack rst) g.packets);
      server = pos (sum g.flow ack rst (received g.flow ack rst) g.packets);
    }
bytes_from_none g ack rst len =
    let fits = len.fits in
    app_bytes_exact g.flow ack rst 0 0 g.packets len.natural (omega arith) (omega arith)
    ∙ ground arith

bytes-IsSilent :
    (g : FlowGroup) (ack rst : Packet)
    → HasLengths g.packets
    → (app_bytes g.flow ack rst no_bytes g.packets ≡ no_bytes) ↔ IsSilent g.flow ack rst g.packets
bytes-IsSilent g ack rst len =
    let exact = bytes_from_none g ack rst len in
    (
      λ e.
          sums-IsSilent g.flow ack rst g.packets (ap (λ b. pos_part b.client) (sym exact ∙ e))
            (ap (λ b. pos_part b.server) (sym exact ∙ e)),
      λ h. let (x, y) = IsSilent-sums g.flow ack rst g.packets h in exact ∙ rw (x, y) refl,
    )

silent_reset_iff :
    (g : FlowGroup) (syn ack rst : Packet) (s : Symptom)
    → HasLengths g.packets
    → (silent_reset g syn ack rst ≡ some s)
      ↔ (IsSilent g.flow ack rst g.packets × (s ≡ reset_symptom g syn ack rst no_bytes))
unfolding silent_reset if_silent
silent_reset_iff g syn ack rst s len =
    let (silent, heard) = bytes-IsSilent g ack rst len in
    (
      λ e.
          let (b, same) =
            if_silent-some g syn ack rst (app_bytes g.flow ack rst no_bytes g.packets) s e in
          (silent b, same),
      λ h. ap (if_silent g syn ack rst) (heard h.0) ∙ ap some (sym h.1),
    )

-- For packets whose lengths are not negative and do not overflow an int64 together, the detector
-- reports `s` exactly if its loop finds the four packets, and between the ACK and the RST no packet
-- but a RST of the server carries a byte; `s` is then the symptom with no bytes counted.
pub detect_reset_iff :
    (g : FlowGroup) (s : Symptom)
    → HasLengths g.packets
    → (detect_reset g ≡ some s) ↔ IsSilentReset g s
unfolding detect_reset decide_reset
detect_reset_iff g s len = (
  λ e.
      let h = handshake g.flow no_handshake g.packets in
      let (p, q, r, t, a, b, c, d, z) = decide_reset-some g h.syn h.synack h.ack h.rst s e in
      let (silent, same) = (silent_reset_iff g p r t s len).0 z in
      record {
        syn = p;
        synack = q;
        ack = r;
        rst = t;
        found = λ i. record { syn = a i; synack = b i; ack = c i; rst = d i };
        silent = silent;
        same = same;
      },
  λ h.
      ap (λ f. decide_reset g f.syn f.synack f.ack f.rst) h.found
      ∙ (silent_reset_iff g h.syn h.ack h.rst s len).1 (h.silent, h.same),
)
