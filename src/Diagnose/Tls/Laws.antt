-- ===== src/Diagnose/Tls/Laws.antt =====
-- When the TLS symptom is reported, and what it says of the response.
use cute_pcap_mcp.Base.{
  Bool, true, false, not, ◌&&◌, ◌||◌, List, [], ◌∷◌, Option, none, some, ◌≡◌, refl, sym, ap, ◌∙◌,
  ◌⊎◌, inl, inr, All, arith, Option-cases, some_eq,
}
use cute_pcap_mcp.Base.Int.{lt_ℤ}
use cute_pcap_mcp.Diagnose.{Packet, Flow, FlowGroup, Symptom, ResponseKind}
use cute_pcap_mcp.Diagnose.Windows.{find_first, any_packet, is_backward}
use cute_pcap_mcp.Diagnose.Windows.Laws.{
  IsFirst, find_first-some, find_first-none, any_packet-false,
}
use cute_pcap_mcp.Diagnose.Tls.{
  Hellos, has_client_hello, has_server_hello, or_else, note_hello, hellos, response_kind,
  find_response, tls_symptom, decide_tls, no_hellos, detect_tls,
}

client-hellos :
    (flow : Flow) (h : Hellos) (ps : List Packet)
    → (hellos flow h ps).client ≡ or_else h.client (find_first (has_client_hello flow) ps)
unfolding hellos find_first
client-hellos flow h [] = ground arith
client-hellos flow h (p ∷ ps) = client-hellos flow (note_hello flow p h) ps ∙ ground arith

server_seen-hellos :
    (flow : Flow) (h : Hellos) (ps : List Packet)
    → (hellos flow h ps).server_seen ≡ (h.server_seen || any_packet (has_server_hello flow) ps)
unfolding hellos any_packet
server_seen-hellos flow h [] = ground arith
server_seen-hellos flow h (p ∷ ps) = server_seen-hellos flow (note_hello flow p h) ps ∙ ground arith

detect_tls_lem :
    (g : FlowGroup)
    → detect_tls g
      ≡ decide_tls g (record {
        client = find_first (has_client_hello g.flow) g.packets;
        server_seen = any_packet (has_server_hello g.flow) g.packets;
      })
unfolding detect_tls
detect_tls_lem g = ap (decide_tls g) (λ i. record {
  client = client-hellos g.flow no_hellos g.packets i;
  server_seen = server_seen-hellos g.flow no_hellos g.packets i;
})

-- The packets of a flow show a Client Hello, whose first is `hello`, and no Server Hello.
pub record IsUnansweredHello (g : FlowGroup) (hello : Packet) : Type 0 where
  pub client : IsFirst (has_client_hello g.flow) g.packets hello
  pub server : All (λ p. has_server_hello g.flow p ≡ false) g.packets

decide_tls-some :
    (g : FlowGroup) (client : Option Packet) (seen : Bool) {s : Symptom}
    → decide_tls g (record { client = client; server_seen = seen }) ≡ some s
    → (hello : Packet) × (client ≡ some hello) × (seen ≡ false) × (s ≡ tls_symptom g hello)
decide_tls-some g none seen e = cc
decide_tls-some g (some hello) true e = cc
decide_tls-some g (some hello) false e = (hello, refl, refl, sym (some_eq e))

-- A reported symptom is that of the first Client Hello of a flow with no Server Hello.
pub detect_tls-some :
    (g : FlowGroup) (s : Symptom)
    → detect_tls g ≡ some s
    → (hello : Packet) × IsUnansweredHello g hello × (s ≡ tls_symptom g hello)
detect_tls-some g s e =
    let (hello, first, unseen, same) = decide_tls-some g _ _ (sym (detect_tls_lem g) ∙ e) in
    (
      hello,
      record {
        client = find_first-some (has_client_hello g.flow) g.packets first;
        server = any_packet-false (has_server_hello g.flow) g.packets unseen;
      },
      same,
    )

-- Where none is reported there is no Client Hello, or there is a Server Hello.
pub detect_tls-none :
    (g : FlowGroup)
    → detect_tls g ≡ none
    → All (λ p. has_client_hello g.flow p ≡ false) g.packets
      ⊎ (any_packet (has_server_hello g.flow) g.packets ≡ true)
detect_tls-none g e = elim (Option-cases (find_first (has_client_hello g.flow) g.packets)) [
  | inl missing ↦ inl (find_first-none (has_client_hello g.flow) g.packets missing)
  | inr (hello, found) ↦ inr (ground (arith, detect_tls_lem g))
]

abbrev pub is_some : Option ResponseKind → Bool
is_some none = false
is_some (some k) = true

-- A packet that counts as the response to `hello`.
abbrev pub responds : Flow → Packet → Packet → Bool
responds flow hello p =
    not (lt_ℤ p.time_ms hello.time_ms) && is_backward flow p && is_some (response_kind p)

abbrev pair_with : Packet → Option ResponseKind → Option (Packet × ResponseKind)
pair_with p none = none
pair_with p (some k) = some (p, k)

abbrev with_kind : Option Packet → Option (Packet × ResponseKind)
with_kind none = none
with_kind (some p) = pair_with p (response_kind p)

kind_of_response :
    (flow : Flow) (hello p : Packet)
    → responds flow hello p ≡ true
    → (k : ResponseKind) × (response_kind p ≡ some k)
kind_of_response flow hello p h = elim (Option-cases (response_kind p)) [
  | inl e ↦ absurd (ground arith)
  | inr (k, e) ↦ (k, e)
]

find_response_lem :
    (flow : Flow) (hello : Packet) (ps : List Packet)
    → find_response flow hello ps ≡ with_kind (find_first (responds flow hello) ps)
unfolding find_response find_first
find_response_lem flow hello [] = refl
find_response_lem flow hello (p ∷ ps) = ground (arith, find_response_lem flow hello ps)

-- The response kind of the symptom is that of the first packet of the responder, not before the
-- Client Hello, that resets the flow or carries data; it is `none` if there is no such packet.
pub find_response-cases :
    (flow : Flow) (hello : Packet) (ps : List Packet)
    → ((p : Packet) × (k : ResponseKind) × (find_response flow hello ps ≡ some (p, k))
        × IsFirst (responds flow hello) ps p
        × (response_kind p ≡ some k))
      ⊎ ((find_response flow hello ps ≡ none) × All (λ p. responds flow hello p ≡ false) ps)
find_response-cases flow hello ps = elim (Option-cases (find_first (responds flow hello) ps)) [
  | inl missing ↦ inr (
    find_response_lem flow hello ps ∙ rw missing,
    find_first-none (responds flow hello) ps missing,
  )
  | inr (p, found) ↦
      let h = find_first-some (responds flow hello) ps found in
      let (k, e) = kind_of_response flow hello p h.passes in
      inl (p, k, find_response_lem flow hello ps ∙ rw (found, e), h, e)
]
