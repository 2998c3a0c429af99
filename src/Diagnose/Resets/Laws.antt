-- ===== src/Diagnose/Resets/Laws.antt =====
-- When the reset symptom is reported: the four packets in order, and the silence between the last
-- two of them.
use cute_pcap_mcp.Base.{
  Bool, true, false, not, ◌&&◌, List, [], ◌∷◌, Option, some, ◌≡◌, refl, sym, ◌∙◌, ◌↔◌, ◌⊎◌, inl,
  inr, if◌then◌else◌, arith, Bool-cases,
}
use cute_pcap_mcp.Diagnose.{Packet, Flow}
use cute_pcap_mcp.Diagnose.Windows.{is_forward, is_backward, is_opening}
use cute_pcap_mcp.Diagnose.Resets.{Handshake, is_none, handshake, no_handshake}

-- What the client and the server send in the four steps.
abbrev pub answers : Flow → Packet → Bool
answers flow p = is_backward flow p && p.syn && p.ack

abbrev pub confirms : Flow → Packet → Bool
confirms flow p = is_forward flow p && not p.syn && p.ack

abbrev pub resets : Flow → Packet → Bool
resets flow p = is_backward flow p && p.rst

abbrev pub steps : Flow → List (Packet → Bool)
steps flow = is_opening flow ∷ answers flow ∷ confirms flow ∷ resets flow ∷ []

-- Packets that pass the tests, one each, are among `ps` in the order of the tests.
abbrev pub Shows : List (Packet → Bool) → List Packet → Type 0
Shows [] ps = Unit
Shows (t ∷ ts) [] = ⊥
Shows (t ∷ ts) (p ∷ ps) = ((t p ≡ true) × Shows ts ps) ⊎ Shows (t ∷ ts) ps

-- The first packet that passes each test in turn.
abbrev pub greedy : List (Packet → Bool) → List Packet → Bool
greedy [] ps = true
greedy (t ∷ ts) [] = false
greedy (t ∷ ts) (p ∷ ps) =
    let taken = greedy ts ps in let left = greedy (t ∷ ts) ps in if t p then taken else left

Shows-tail :
    (t : Packet → Bool) (ts : List (Packet → Bool)) (ps : List Packet)
    → Shows (t ∷ ts) ps
    → Shows ts ps
Shows-tail t [] ps h = tt
Shows-tail t (u ∷ ts) [] h = absurd h
Shows-tail t (u ∷ ts) (p ∷ ps) (inl (e, h)) = inr h
Shows-tail t (u ∷ ts) (p ∷ ps) (inr h) = inr (Shows-tail t (u ∷ ts) ps h)

greedy-Shows : (ts : List (Packet → Bool)) (ps : List Packet) → greedy ts ps ≡ true → Shows ts ps
greedy-Shows [] ps e = tt
greedy-Shows (t ∷ ts) [] e = cc
greedy-Shows (t ∷ ts) (p ∷ ps) e = elim (Bool-cases (t p)) [
  | inl h ↦ inl (h, greedy-Shows ts ps (rw h at e))
  | inr h ↦ inr (greedy-Shows (t ∷ ts) ps (rw h at e))
]

Shows-greedy : (ts : List (Packet → Bool)) (ps : List Packet) → Shows ts ps → greedy ts ps ≡ true
Shows-greedy [] ps h = refl
Shows-greedy (t ∷ ts) [] h = absurd h
Shows-greedy (t ∷ ts) (p ∷ ps) (inl (e, h)) = rw e (Shows-greedy ts ps h)
Shows-greedy (t ∷ ts) (p ∷ ps) (inr h) = elim (Bool-cases (t p)) [
  | inl e ↦ rw e (Shows-greedy ts ps (Shows-tail t ts ps h))
  | inr e ↦ rw e (Shows-greedy (t ∷ ts) ps h)
]

abbrev pub is_found : Option Packet → Bool
is_found o = not (is_none o)

module _ (flow : Flow) where
  abbrev stage_syn : Packet → Handshake
  stage_syn s = record no_handshake { syn = some s }

  abbrev stage_synack : Packet → Packet → Handshake
  stage_synack s a = record (stage_syn s) { synack = some a }

  abbrev stage_ack : Packet → Packet → Packet → Handshake
  stage_ack s a k = record (stage_synack s a) { ack = some k }

  abbrev stage_rst : Packet → Packet → Packet → Packet → Handshake
  stage_rst s a k r = record (stage_ack s a k) { rst = some r }

  -- Whether the loop finds the last of the four packets.
  abbrev finds : Handshake → List Packet → Bool
  finds h ps = is_found (handshake flow h ps).rst

  after_rst : (s a k r : Packet) (ps : List Packet) → finds (stage_rst s a k r) ps ≡ true
  unfolding handshake
  after_rst s a k r [] = refl
  after_rst s a k r (p ∷ ps) = ground (arith, after_rst s a k r ps)

  after_ack :
      (s a k : Packet) (ps : List Packet)
      → finds (stage_ack s a k) ps ≡ greedy (resets flow ∷ []) ps
  unfolding handshake
  after_ack s a k [] = refl
  after_ack s a k (p ∷ ps) = ground (arith, after_rst s a k p ps, after_ack s a k ps)

  after_synack :
      (s a : Packet) (ps : List Packet)
      → finds (stage_synack s a) ps ≡ greedy (confirms flow ∷ resets flow ∷ []) ps
  unfolding handshake
  after_synack s a [] = refl
  after_synack s a (p ∷ ps) = ground (arith, after_ack s a p ps, after_synack s a ps)

  after_syn :
      (s : Packet) (ps : List Packet)
      → finds (stage_syn s) ps ≡ greedy (answers flow ∷ confirms flow ∷ resets flow ∷ []) ps
  unfolding handshake
  after_syn s [] = refl
  after_syn s (p ∷ ps) = ground (arith, after_synack s p ps, after_syn s ps)

  finds_lem : (ps : List Packet) → finds no_handshake ps ≡ greedy (steps flow) ps
  unfolding handshake
  finds_lem [] = refl
  finds_lem (p ∷ ps) = ground (arith, after_syn p ps, finds_lem ps)

  -- The loop finds the RST of a handshake exactly if a SYN of the client, a SYN ACK of the server,
  -- an ACK of the client and a RST of the server are among the packets in this order.
  pub handshake-Shows :
      (ps : List Packet)
      → (is_found (handshake flow no_handshake ps).rst ≡ true) ↔ Shows (steps flow) ps
  handshake-Shows ps = (
    λ e. greedy-Shows (steps flow) ps (sym (finds_lem ps) ∙ e),
    λ h. finds_lem ps ∙ Shows-greedy (steps flow) ps h,
  )
