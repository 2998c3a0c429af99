-- ===== src/Diagnose/Windows/Laws.antt =====
-- What the loops over packets find.
use cute_pcap_mcp.Base.{
  Bool, true, false, ◌&&◌, List, [], ◌∷◌, ◌++◌, Option, none, some, ◌≡◌, refl, ap, ◌↔◌, inl, inr,
  All, arith, Bool-cases,
}
use cute_pcap_mcp.Diagnose.{Packet, Symptom, prepend}
use cute_pcap_mcp.Diagnose.Windows.{find_first, keep, any_packet}

-- `p` is the first of the packets that passes the test.
pub record IsFirst (test : Packet → Bool) (ps : List Packet) (p : Packet) : Type 0 where
  pub before : List Packet
  pub after : List Packet
  pub split : ps ≡ before ++ p ∷ after
  pub fail_before : All (λ q. test q ≡ false) before
  pub passes : test p ≡ true

pub find_first-some :
    (test : Packet → Bool) (ps : List Packet) {p : Packet}
    → find_first test ps ≡ some p
    → IsFirst test ps p
unfolding find_first
find_first-some test [] e = cc
find_first-some test (q ∷ ps) {p} e = elim (Bool-cases (test q)) [
  | inl t ↦
      let same : q ≡ p = ground arith in
      record { before = []; after = ps; split = rw same; fail_before = tt; passes = rw (← same) t }
  | inr t ↦
      let h = find_first-some test ps {p = p} (ground arith) in
      record {
        before = q ∷ h.before;
        after = h.after;
        split = ap (λ qs. q ∷ qs) h.split;
        fail_before = (t, h.fail_before);
        passes = h.passes;
      }
]

pub find_first-none :
    (test : Packet → Bool) (ps : List Packet)
    → find_first test ps ≡ none
    → All (λ p. test p ≡ false) ps
unfolding find_first
find_first-none test [] e = tt
find_first-none test (p ∷ ps) e = (ground arith, find_first-none test ps (ground arith))

pub any_packet-false :
    (test : Packet → Bool) (ps : List Packet)
    → any_packet test ps ≡ false
    → All (λ p. test p ≡ false) ps
unfolding any_packet
any_packet-false test [] e = tt
any_packet-false test (p ∷ ps) e = (ground arith, any_packet-false test ps (ground arith))

pub keep-All : (test : Packet → Bool) (ps : List Packet) → All (λ p. test p ≡ true) (keep test ps)
unfolding keep
keep-All test [] = tt
keep-All test (p ∷ ps) = elim (Bool-cases (test p)) [
  | inl e ↦ rw e (e, keep-All test ps)
  | inr e ↦ rw e (keep-All test ps)
]

pub IsFirst-find_first :
    (test : Packet → Bool) (p : Packet) (before after : List Packet)
    → All (λ q. test q ≡ false) before
    → test p ≡ true
    → find_first test (before ++ p ∷ after) ≡ some p
unfolding find_first
IsFirst-find_first test p [] after h t = rw t refl
IsFirst-find_first test p (q ∷ before) after (f, h) t =
    rw f (IsFirst-find_first test p before after h t)

pub find_first-some_iff :
    (test : Packet → Bool) (ps : List Packet) (p : Packet)
    → (find_first test ps ≡ some p) ↔ IsFirst test ps p
find_first-some_iff test ps p = (
  λ e. find_first-some test ps e,
  λ h. rw h.split (IsFirst-find_first test p h.before h.after h.fail_before h.passes),
)

pub All-find_first :
    (test : Packet → Bool) (ps : List Packet)
    → All (λ p. test p ≡ false) ps
    → find_first test ps ≡ none
unfolding find_first
All-find_first test [] h = refl
All-find_first test (p ∷ ps) (f, h) = rw f (All-find_first test ps h)

pub find_first-keep :
    (test kept : Packet → Bool) (ps : List Packet)
    → find_first test (keep kept ps) ≡ find_first (λ p. kept p && test p) ps
unfolding find_first keep
find_first-keep test kept [] = refl
find_first-keep test kept (p ∷ ps) = ground (arith, find_first-keep test kept ps)

pub keep-none :
    (test : Packet → Bool) (ps : List Packet) → (keep test ps ≡ []) ↔ All (λ p. test p ≡ false) ps
unfolding keep
keep-none test [] = (λ e. tt, λ h. refl)
keep-none test (p ∷ ps) = elim (Bool-cases (test p)) [
  | inl e ↦ (λ k. absurd (ground arith), λ h. absurd (ground arith))
  | inr e ↦ rw e (λ k. (refl, (keep-none test ps).0 k), λ h. (keep-none test ps).1 h.1)
]

pub All-prepend :
    (P : Symptom → Type 0) (o : Option Symptom) (ss : List Symptom)
    → ((s : Symptom) → o ≡ some s → P s)
    → All P ss
    → All P (prepend o ss)
All-prepend P none ss h k = k
All-prepend P (some s) ss h k = (h s refl, k)
