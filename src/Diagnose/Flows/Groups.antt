-- ===== src/Diagnose/Flows/Groups.antt =====
-- The groups are those of a specification without a map: for each key, in ascending order, the
-- packets with that key, sorted.
use mathlib.Core.Path.{fun_ext}
use mathlib.Core.List.{append-nil, append_assoc}
use cute_pcap_mcp.Base.{
  Bool, ◌&&◌, ◌||◌, List, [], ◌∷◌, ◌++◌, map, ◌≡◌, refl, sym, ap, ◌∙◌, inl, inr, if◌then◌else◌, All,
  any, arith, Bool-cases,
}
use cute_pcap_mcp.Base.Text.{Bytes, eq_bytes, eq_bytes_iff, lt_bytes, mentions}
use cute_pcap_mcp.Base.Text.Sets.{
  IsAscending, HasNoRepeat, add_key, add_key-HasNoRepeat, mentions-add_key, mentions-sort,
  sort-IsAscending,
}
use cute_pcap_mcp.Base.Sort.{sort, IsSorted, IsWeakOrder, sort-IsSorted}
use cute_pcap_mcp.Diagnose.{Packet, FlowGroup}
use cute_pcap_mcp.Diagnose.Flows.{
  Grouped, canonical_key, is_groupable, append_at, group_from, packets_at, keys, packet_less,
  group_of, flow_groups,
}

abbrev pub has_key : Bytes → Packet → Bool
has_key k p = is_groupable p && eq_bytes (canonical_key p) k

-- The packets with a key, in the order of the capture.
unfoldable pub members : Bytes → List Packet → List Packet
members k [] = []
members k (p ∷ ps) = if has_key k p then p ∷ members k ps else members k ps

packets_at-append_at :
    (k j : Bytes) (p : Packet) (g : Grouped)
    → packets_at k (append_at j p g)
      ≡ (if eq_bytes j k then packets_at k g ++ p ∷ [] else packets_at k g)
unfolding packets_at append_at
packets_at-append_at k j p [] = refl
packets_at-append_at k j p ((i, ps) ∷ g) =
    ground
      (arith, packets_at-append_at k j p g, eq_bytes_iff i j, eq_bytes_iff i k, eq_bytes_iff j k)

packets_at-group_from :
    (k : Bytes) (g : Grouped) (ps : List Packet)
    → packets_at k (group_from g ps) ≡ packets_at k g ++ members k ps
unfolding group_from members
packets_at-group_from k g [] = sym (append-nil _)
packets_at-group_from k g (p ∷ ps) = elim (Bool-cases (is_groupable p)) [
  | inl e ↦ rw e (
      packets_at-group_from k (append_at (canonical_key p) p g) ps
      ∙ rw (packets_at-append_at k (canonical_key p) p g)
          (elim (Bool-cases (eq_bytes (canonical_key p) k)) [
            | inl q ↦ rw q (append_assoc (packets_at k g) (p ∷ []) (members k ps))
            | inr q ↦ rw q
          ]))
  | inr e ↦ rw e (packets_at-group_from k g ps)
]

-- The keys in the order of their first use.
key_set : List Bytes → List Packet → List Bytes
key_set ks [] = ks
key_set ks (p ∷ ps) = key_set (if is_groupable p then add_key (canonical_key p) ks else ks) ps

keys-append_at :
    (k : Bytes) (p : Packet) (g : Grouped) → keys (append_at k p g) ≡ add_key k (keys g)
unfolding append_at mentions
keys-append_at k p [] = refl
keys-append_at k p ((j, ps) ∷ g) = ground (arith, keys-append_at k p g)

keys-group_from : (g : Grouped) (ps : List Packet) → keys (group_from g ps) ≡ key_set (keys g) ps
unfolding group_from key_set
keys-group_from g [] = refl
keys-group_from g (p ∷ ps) = elim (Bool-cases (is_groupable p)) [
  | inl e ↦ rw e (
      keys-group_from (append_at (canonical_key p) p g) ps
      ∙ ap (λ ks. key_set ks ps) (keys-append_at (canonical_key p) p g))
  | inr e ↦ rw e (keys-group_from g ps)
]

key_set-HasNoRepeat :
    (ks : List Bytes) (ps : List Packet) → HasNoRepeat ks → HasNoRepeat (key_set ks ps)
unfolding key_set
key_set-HasNoRepeat ks [] h = h
key_set-HasNoRepeat ks (p ∷ ps) h = elim (Bool-cases (is_groupable p)) [
  | inl e ↦ rw e (
      key_set-HasNoRepeat (add_key (canonical_key p) ks) ps
        (add_key-HasNoRepeat (canonical_key p) ks h))
  | inr e ↦ rw e (key_set-HasNoRepeat ks ps h)
]

mentions-key_set :
    (k : Bytes) (ks : List Bytes) (ps : List Packet)
    → mentions k (key_set ks ps) ≡ (mentions k ks || any (has_key k) ps)
unfolding key_set
mentions-key_set k ks [] = ground arith
mentions-key_set k ks (p ∷ ps) = ground (
  arith,
  mentions-key_set k (add_key (canonical_key p) ks) ps,
  mentions-key_set k ks ps,
  mentions-add_key k (canonical_key p) ks,
)

-- The groups of a capture are one for each key of its packets that can be grouped. The keys ascend,
-- so there is one group for a key, and its packets are those with the key, sorted.
pub record IsGrouping (ps : List Packet) (groups : List FlowGroup) (ks : List Bytes) : Type 0 where
  pub by_key : groups ≡ map (λ k. group_of (members k ps)) ks
  pub ascending : IsAscending ks
  pub all_keys : (k : Bytes) → mentions k ks ≡ any (has_key k) ps

pub flow_groups-IsGrouping :
    (ps : List Packet) → (ks : List Bytes) × IsGrouping ps (flow_groups ps) ks
unfolding flow_groups mentions
flow_groups-IsGrouping ps = (
  sort lt_bytes (key_set [] ps),
  record {
    by_key = rw (keys-group_from [] ps) (
        ap (λ f. map f (sort lt_bytes (key_set [] ps)))
          (fun_ext (λ k. ap group_of (packets_at-group_from k [] ps))));
    ascending = sort-IsAscending (key_set [] ps) (key_set-HasNoRepeat [] ps tt);
    all_keys = λ k. mentions-sort k (key_set [] ps) ∙ mentions-key_set k [] ps;
  },
)

packet_less-IsWeakOrder : IsWeakOrder packet_less
unfolding packet_less
packet_less-IsWeakOrder = record { asym = λ a b h. ground arith; trans = λ a b c h k. ground arith }

group_of-IsSorted : (ps : List Packet) → IsSorted packet_less (group_of ps).packets
unfolding group_of
group_of-IsSorted ps = sort-IsSorted packet_less-IsWeakOrder ps

-- The packets of every group are in the order of their times, and of their numbers at one time.
pub flow_groups-IsSorted :
    (ps : List Packet) → All (λ g. IsSorted packet_less g.packets) (flow_groups ps)
flow_groups-IsSorted ps = let (ks, h) = flow_groups-IsGrouping ps in rw h.by_key (go ks)
  where
    go :
        (ks : List Bytes)
        → All (λ g. IsSorted packet_less g.packets) (map (λ k. group_of (members k ps)) ks)
    go [] = tt
    go (k ∷ ks) = (group_of-IsSorted (members k ps), go ks)
