-- ===== src/Diagnose/Paths/Laws.antt =====
-- When the symptom of an asymmetric return path is reported.
use cute_pcap_mcp.Base.{
  Bool, true, false, ◌&&◌, List, [], ◌∷◌, Option, none, some, ◌≡◌, refl, sym, ◌∙◌, ◌⊎◌, inl, inr,
  All, arith, Bool-cases, some_eq,
}
use cute_pcap_mcp.Base.Text.{is_empty}
use cute_pcap_mcp.Diagnose.{Packet, Flow, FlowGroup, Scope, Symptom, interface_label}
use cute_pcap_mcp.Diagnose.Flows.{matches_scope}
use cute_pcap_mcp.Diagnose.Windows.{is_opening, keep, find_first, first_syn}
use cute_pcap_mcp.Diagnose.Windows.Laws.{IsFirst, find_first-some_iff, find_first-keep, keep-none}
use cute_pcap_mcp.Diagnose.Paths.{
  is_synack, by_other_interface, unanswered, answered_elsewhere, judge_synacks, judge_path,
  answer_of, judge_opening,
}

-- The first SYN of the client in a flow of the scope, seen on a known interface.
pub record IsLabelled (scope : Option Scope) (g : FlowGroup) (syn : Packet) : Type 0 where
  pub in_scope : matches_scope g.flow scope ≡ true
  pub first : IsFirst (is_opening g.flow) g.packets syn
  pub labelled : is_empty (interface_label syn) ≡ false

-- A SYN ACK of the server that came by another interface than `syn`.
abbrev pub is_elsewhere : Flow → Packet → Packet → Bool
is_elsewhere flow syn p = is_synack flow p && by_other_interface syn p

-- The two ways to the symptom.
abbrev pub Explains : FlowGroup → Packet → Symptom → Type 0
Explains g syn s =
    (All (λ p. is_synack g.flow p ≡ false) g.packets × (s ≡ unanswered g syn))
    ⊎ ((reply : Packet) × IsFirst (is_elsewhere g.flow syn) g.packets reply
        × (s ≡ answered_elsewhere g syn reply))

judge_synacks_lem :
    (g : FlowGroup) (syn : Packet) (ps : List Packet)
    → ((ps ≡ []) × (judge_synacks g syn ps ≡ some (unanswered g syn)))
      ⊎ (judge_synacks g syn ps ≡ answer_of g syn (find_first (by_other_interface syn) ps))
unfolding judge_synacks
judge_synacks_lem g syn [] = inl (refl, refl)
judge_synacks_lem g syn (p ∷ ps) = inr refl

answer_of-some :
    (g : FlowGroup) (syn : Packet) (o : Option Packet) (s : Symptom)
    → answer_of g syn o ≡ some s
    → (reply : Packet) × (o ≡ some reply) × (s ≡ answered_elsewhere g syn reply)
answer_of-some g syn none s e = cc
answer_of-some g syn (some reply) s e = (reply, refl, sym (some_eq e))

abbrev synacks : FlowGroup → List Packet
synacks g = keep (is_synack g.flow) g.packets

judge_synacks-some :
    (g : FlowGroup) (syn : Packet) (s : Symptom)
    → judge_synacks g syn (synacks g) ≡ some s
    → Explains g syn s
judge_synacks-some g syn s e = elim (judge_synacks_lem g syn (synacks g)) [
  | inl (empty, same) ↦
      inl ((keep-none (is_synack g.flow) g.packets).0 empty, sym (some_eq (sym same ∙ e)))
  | inr found ↦
      let (reply, at, same) =
        answer_of-some g syn (find_first (by_other_interface syn) (synacks g)) s (sym found ∙ e) in
      inr (
        reply,
        (find_first-some_iff (is_elsewhere g.flow syn) g.packets reply).0
            (sym (find_first-keep (by_other_interface syn) (is_synack g.flow) g.packets) ∙ at),
        same,
      )
]

judge_opening-some :
    (g : FlowGroup) (opening : Option Packet) (s : Symptom)
    → judge_opening g opening ≡ some s
    → (syn : Packet) × (opening ≡ some syn)
      × (is_empty (interface_label syn) ≡ false)
      × Explains g syn s
unfolding judge_opening
judge_opening-some g none s e = cc
judge_opening-some g (some syn) s e = elim (Bool-cases (is_empty (interface_label syn))) [
  | inl label ↦ absurd (ground (arith, label))
  | inr label ↦ (syn, refl, label, judge_synacks-some g syn s (rw label at e))
]

-- A reported symptom belongs to a flow of the scope whose first SYN of the client was seen on a known
-- interface. Either there is no SYN ACK of the server, and the symptom says so, or the symptom
-- is about the first SYN ACK that came by another, known interface.
pub judge_path-some :
    (scope : Option Scope) (g : FlowGroup) (s : Symptom)
    → judge_path scope g ≡ some s
    → (syn : Packet) × IsLabelled scope g syn × Explains g syn s
unfolding judge_path first_syn
judge_path-some scope g s e = elim (Bool-cases (matches_scope g.flow scope)) [
  | inl within ↦
      let (syn, found, label, why) =
        judge_opening-some g (find_first (is_opening g.flow) g.packets) s (rw within at e) in
      (
        syn,
        record {
          in_scope = within;
          first = (find_first-some_iff (is_opening g.flow) g.packets syn).0 found;
          labelled = label;
        },
        why,
      )
  | inr out ↦ absurd (ground (arith, out))
]
