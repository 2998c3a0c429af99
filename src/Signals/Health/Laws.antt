-- ===== src/Signals/Health/Laws.antt =====
-- The resets of the health section are those of the signals, with their sides.
use cute_pcap_mcp.Base.{
  ℕ, suc, ◌+◌, ◌<◌, ◌||◌, ◌++◌, Bool, true, false, List, [], ◌∷◌, Option, none, some, ◌≡◌, refl,
  sym, ap, ◌∙◌, inl, inr, ◌==◌, if◌then◌else◌, arith, Bool-cases,
}
use mathlib.Core.Option.{none, some}
use mathlib.Core.Path.{subst}
use cute_pcap_mcp.Base.Text.{Bytes, codes, eq_bytes, eq_bytes_iff, contains, to_upper}
use cute_pcap_mcp.Base.Int.{ℤ}
use cute_pcap_mcp.Zeek.{Log}
use cute_pcap_mcp.Signals.{Connection, looks_reset}
use mathlib.Core.List.{append-nil, append_assoc}
use cute_pcap_mcp.Signals.Build.{Summary, count_if, summary_of, build_summary}
use cute_pcap_mcp.Signals.Health.{
  TcpHealth, no_resets, is_by_originator, is_by_responder, count_reset, count_resets,
  build_tcp_health, unless_empty,
}

-- A state that names a side names a reset.
state_resets :
    (c : Connection) (s : Bytes)
    → eq_bytes (to_upper c.conn_state) s ≡ true
    → contains s (codes "RST") ≡ true
    → looks_reset c ≡ true
unfolding looks_reset
state_resets c s e h = rw ((eq_bytes_iff (to_upper c.conn_state) s).0 e, h) refl

originator_resets : (c : Connection) → is_by_originator c ≡ true → looks_reset c ≡ true
unfolding is_by_originator contains
originator_resets c h = elim (Bool-cases (eq_bytes (to_upper c.conn_state) (codes "RSTO"))) [
  | inl p ↦ state_resets c (codes "RSTO") p refl
  | inr p ↦ state_resets c (codes "RSTOS0") (rw p at h) refl
]

responder_resets : (c : Connection) → is_by_responder c ≡ true → looks_reset c ≡ true
unfolding is_by_responder contains
responder_resets c h = elim (Bool-cases (eq_bytes (to_upper c.conn_state) (codes "RSTR"))) [
  | inl p ↦ state_resets c (codes "RSTR") p refl
  | inr p ↦ state_resets c (codes "RSTRH") (rw p at h) refl
]

-- No state names both sides.
other_side : (c : Connection) → is_by_responder c ≡ true → is_by_originator c ≡ false
unfolding is_by_originator is_by_responder eq_bytes
other_side c h = elim (Bool-cases (eq_bytes (to_upper c.conn_state) (codes "RSTR"))) [
  | inl p ↦ rw ((eq_bytes_iff (to_upper c.conn_state) (codes "RSTR")).0 p) refl
  | inr p ↦ rw ((eq_bytes_iff (to_upper c.conn_state) (codes "RSTRH")).0 (rw p at h)) refl
]

count_if-true :
    (p : Connection → Bool) {c : Connection} (cs : List Connection)
    → p c ≡ true
    → count_if p (c ∷ cs) ≡ suc (count_if p cs)
count_if-true p cs e = rw (e) refl

count_if-false :
    (p : Connection → Bool) {c : Connection} (cs : List Connection)
    → p c ≡ false
    → count_if p (c ∷ cs) ≡ count_if p cs
count_if-false p cs e = rw (e) refl

count_resets-reset :
    (h : TcpHealth) (c : Connection) (cs : List Connection)
    → looks_reset c ≡ true
    → count_resets h (c ∷ cs) ≡ count_resets (count_reset c h) cs
unfolding count_resets
count_resets-reset h c cs e = ap (λ b. count_resets (if b then count_reset c h else h) cs) e

count_resets-other :
    (h : TcpHealth) (c : Connection) (cs : List Connection)
    → looks_reset c ≡ false
    → count_resets h (c ∷ cs) ≡ count_resets h cs
unfolding count_resets
count_resets-other h c cs e = ap (λ b. count_resets (if b then count_reset c h else h) cs) e

-- A count that grows with the resets of one kind, and of no other connection.
record IsCounter (p : Connection → Bool) (count : TcpHealth → ℕ) : Type 0 where
  of_reset : (c : Connection) → p c ≡ true → looks_reset c ≡ true
  grown : (c : Connection) (h : TcpHealth) → p c ≡ true → count (count_reset c h) ≡ suc (count h)
  same :
      (c : Connection) (h : TcpHealth)
      → looks_reset c ≡ true
      → p c ≡ false
      → count (count_reset c h) ≡ count h

-- The count is that of the connections that pass the test, on top of the count before.
count-count_resets :
    {p : Connection → Bool} {count : TcpHealth → ℕ} (k : IsCounter p count) (h : TcpHealth)
    (cs : List Connection)
    → count (count_resets h cs) ≡ count h + count_if p cs
unfolding count_resets
count-count_resets k h [] = omega arith
count-count_resets {p} {count} k h (c ∷ cs) =
    let rest = count-count_resets k (count_reset c h) cs in
    elim (Bool-cases (p c)) [
      | inl t ↦
          ap count (count_resets-reset h c cs (k.of_reset c t))
          ∙ rest
          ∙ rw (k.grown c h t, count_if-true p cs t) (omega arith)
      | inr f ↦ elim (Bool-cases (looks_reset c)) [
        | inl r ↦
            ap count (count_resets-reset h c cs r)
            ∙ rest
            ∙ rw (k.same c h r f, count_if-false p cs f) refl
        | inr r ↦
            ap count (count_resets-other h c cs r)
            ∙ count-count_resets k h cs
            ∙ ap (λ n. count h + n) (sym (count_if-false p cs f))
      ]
    ]

reset_count-IsCounter : IsCounter looks_reset (λ h. h.reset_count)
unfolding count_reset
reset_count-IsCounter = record {
  of_reset = λ c t. t;
  grown = λ c h t. refl;
  same = λ c h r f. absurd (ground (arith, r, f));
}

by_originator-IsCounter : IsCounter is_by_originator (λ h. h.by_originator)
unfolding count_reset
by_originator-IsCounter = record {
  of_reset = originator_resets;
  grown = λ c h t. rw (t) refl;
  same = λ c h r f. rw (f) refl;
}

by_responder-IsCounter : IsCounter is_by_responder (λ h. h.by_responder)
unfolding count_reset
by_responder-IsCounter = record {
  of_reset = responder_resets;
  grown = λ c h t. rw (other_side c t, t) refl;
  same = λ c h r f. elim (Bool-cases (is_by_originator c)) [
    | inl o ↦ rw (o) refl
    | inr o ↦ rw (o, f) refl
  ];
}

-- The connections that look reset, in their order.
abbrev pub resets_of : List Connection → List Connection
resets_of [] = []
resets_of (c ∷ cs) = let rest = resets_of cs in if looks_reset c then c ∷ rest else rest

-- A loop keeps the resets that it had, and adds those of its connections.
reset_connections-count_resets :
    (h : TcpHealth) (cs : List Connection)
    → (count_resets h cs).reset_connections ≡ h.reset_connections ++ resets_of cs
unfolding count_resets count_reset
reset_connections-count_resets h [] = sym (append-nil h.reset_connections)
reset_connections-count_resets h (c ∷ cs) = elim (Bool-cases (looks_reset c)) [
  | inl p ↦
      ap (λ t. t.reset_connections) (count_resets-reset h c cs p)
      ∙ reset_connections-count_resets (count_reset c h) cs
      ∙ append_assoc h.reset_connections (c ∷ []) (resets_of cs)
      ∙ ap (λ b. h.reset_connections ++ (if b then c ∷ resets_of cs else resets_of cs)) (sym p)
  | inr p ↦
      ap (λ t. t.reset_connections) (count_resets-other h c cs p)
      ∙ reset_connections-count_resets h cs
      ∙ ap (λ b. h.reset_connections ++ (if b then c ∷ resets_of cs else resets_of cs)) (sym p)
]

-- The state of a connection, in upper case, is one of two.
abbrev pub has_state : Bytes → Bytes → Connection → Bool
has_state s t c = eq_bytes (to_upper c.conn_state) s || eq_bytes (to_upper c.conn_state) t

-- What a section says of a summary: there is none exactly where the signal of resets is 0.
pub IsTally : Summary → Option TcpHealth → Type 0
IsTally s none = s.signals.tcp_resets ≡ 0
IsTally s (some h) =
    (0 < s.signals.tcp_resets)
    × (h.reset_count ≡ s.signals.tcp_resets)
    × (h.by_originator ≡ count_if (has_state (codes "RSTO") (codes "RSTOS0")) s.connections)
    × (h.by_responder ≡ count_if (has_state (codes "RSTR") (codes "RSTRH")) s.connections)
    × (h.reset_connections ≡ resets_of s.connections)

unless_empty-IsTally :
    (s : Summary)
    → s.signals.tcp_resets ≡ count_if looks_reset s.connections
    → IsTally s (unless_empty (count_resets no_resets s.connections))
unfolding IsTally is_by_originator is_by_responder
unless_empty-IsTally s e =
    let cs = s.connections in
    let h = count_resets no_resets cs in
    let same = count-count_resets reset_count-IsCounter no_resets cs in
    elim (Bool-cases (h.reset_count == 0)) [
      | inl p ↦
          subst (λ b. IsTally s (if b then none else some h)) (sym p) (ground (arith, p, same, e))
      | inr p ↦
          subst (λ b. IsTally s (if b then none else some h)) (sym p)
            (
              ground (arith, p, same, e),
              same ∙ omega (arith, e),
              count-count_resets by_originator-IsCounter no_resets cs ∙ omega arith,
              count-count_resets by_responder-IsCounter no_resets cs ∙ omega arith,
              reset_connections-count_resets no_resets cs,
            )
    ]

-- There is no section exactly for a summary whose `tcp_resets` signal is 0; the section of another has that
-- signal as its count of resets, the counts of the states RSTO and RSTOS0 to the originator and of RSTR and
-- RSTRH to the responder, and the connections that look reset in their order.
pub build_tcp_health-IsTally :
    (redact : Bytes → Bytes × Bool) (parse_float : Bytes → Option ℤ) (l : Log) (ls : List Log)
    → IsTally
        (summary_of redact parse_float (l ∷ ls))
        (build_tcp_health (build_summary redact parse_float (l ∷ ls)))
unfolding build_tcp_health build_summary
build_tcp_health-IsTally redact parse_float l ls =
    unless_empty-IsTally (summary_of redact parse_float (l ∷ ls)) refl
