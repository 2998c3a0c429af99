-- ===== src/Diagnose/Probes/Counts.antt =====
-- What the table of probes counts: for each key, the flows with a SYN of the client, and those of
-- them that the server resets.
use cute_pcap_mcp.Base.{
  ℕ, ◌+◌, Bool, true, false, ◌&&◌, List, [], ◌∷◌, Option, none, some, ◌≡◌, refl, inl, inr,
  if◌then◌else◌, All, arith, Bool-cases, Option-cases,
}
use mathlib.Core.Logic.{◌≢◌}
use cute_pcap_mcp.Base.Text.{Bytes, eq_bytes, eq_bytes_iff, mentions}
use cute_pcap_mcp.Base.Text.Sets.{HasNoRepeat, add_key, add_key-HasNoRepeat}
use cute_pcap_mcp.Diagnose.{Packet, Flow, FlowGroup, Scope}
use cute_pcap_mcp.Diagnose.Flows.{matches_scope}
use cute_pcap_mcp.Diagnose.Windows.{first_syn, flow_has_server_rst}
use cute_pcap_mcp.Diagnose.Probes.{
  Probes, ProbeGroup, probe_key, key_flow, new_probe, count_probe, update_at, add_probe,
  collect_probes,
}

abbrev pub is_some : Option Packet → Bool
is_some none = false
is_some (some p) = true

-- A group of the scope with a SYN of the client.
abbrev pub is_probe : Option Scope → FlowGroup → Bool
is_probe scope g = matches_scope g.flow scope && is_some (first_syn g)

abbrev pub key_of : FlowGroup → Bytes
key_of g = probe_key (key_flow g.flow)

abbrev pub has_key : Option Scope → Bytes → FlowGroup → Bool
has_key scope k g = is_probe scope g && eq_bytes (key_of g) k

-- One of them that the server resets.
abbrev pub is_refused : Option Scope → Bytes → FlowGroup → Bool
is_refused scope k g = has_key scope k g && flow_has_server_rst g

abbrev one : Bool → ℕ
one true = 1
one false = 0

abbrev pub count : (FlowGroup → Bool) → List FlowGroup → ℕ
count f [] = 0
count f (g ∷ gs) = one (f g) + count f gs

-- A number of the entry of a key, 0 where there is none.
abbrev read : (ProbeGroup → ℕ) → Bytes → Probes → ℕ
read f k [] = 0
read f k ((j, e) ∷ m) = if eq_bytes j k then f e else read f k m

abbrev totals : ProbeGroup → ℕ
totals e = e.total

abbrev resets : ProbeGroup → ℕ
resets e = e.rst

abbrev table_keys : Probes → List Bytes
table_keys [] = []
table_keys ((k, e) ∷ m) = k ∷ table_keys m

-- An update of the entry of `j` by `by` shows at `j` only.
read-update_at :
    (f : ProbeGroup → ℕ) (by : ℕ) (u : ProbeGroup → ProbeGroup) (k j : Bytes) (flow : Flow)
    (m : Probes)
    → ((e : ProbeGroup) → f (u e) ≡ by + f e)
    → f (new_probe flow) ≡ 0
    → read f k (update_at j flow u m) ≡ (if eq_bytes j k then by else 0) + read f k m
unfolding update_at
read-update_at f by u k j flow [] h z = ground (arith, h (new_probe flow))
read-update_at f by u k j flow ((i, e) ∷ m) h z = ground (
  arith,
  h e,
  read-update_at f by u k j flow m h z,
  eq_bytes_iff i j,
  eq_bytes_iff i k,
  eq_bytes_iff j k,
)

keys-update_at :
    (k : Bytes) (flow : Flow) (u : ProbeGroup → ProbeGroup) (m : Probes)
    → table_keys (update_at k flow u m) ≡ add_key k (table_keys m)
unfolding update_at mentions
keys-update_at k flow u [] = refl
keys-update_at k flow u ((j, e) ∷ m) = ground (arith, keys-update_at k flow u m)

totals-count_probe :
    (g : FlowGroup) (p : Packet) (e : ProbeGroup) → totals (count_probe g p e) ≡ 1 + totals e
unfolding count_probe
totals-count_probe g p e = omega arith

resets-count_probe :
    (g : FlowGroup) (p : Packet) (e : ProbeGroup)
    → resets (count_probe g p e) ≡ one (flow_has_server_rst g) + resets e
unfolding count_probe
resets-count_probe g p e = ground arith

module _ (scope : Option Scope) where
  totals-add_probe :
      (k : Bytes) (g : FlowGroup) (m : Probes)
      → read totals k (add_probe scope g m) ≡ one (has_key scope k g) + read totals k m
  unfolding add_probe
  totals-add_probe k g m = elim (Option-cases (first_syn g)) [
    | inl e ↦ ground (arith, e)
    | inr (p, e) ↦ ground (
      arith,
      e,
      read-update_at totals 1 (count_probe g p) k (key_of g) (key_flow g.flow) m
          (totals-count_probe g p) refl,
    )
  ]

  resets-add_probe :
      (k : Bytes) (g : FlowGroup) (m : Probes)
      → read resets k (add_probe scope g m) ≡ one (is_refused scope k g) + read resets k m
  unfolding add_probe
  resets-add_probe k g m = elim (Option-cases (first_syn g)) [
    | inl e ↦ ground (arith, e)
    | inr (p, e) ↦ ground (
      arith,
      e,
      read-update_at resets (one (flow_has_server_rst g)) (count_probe g p) k (key_of g)
          (key_flow g.flow) m (resets-count_probe g p) refl,
    )
  ]

  totals-collect_probes :
      (k : Bytes) (m : Probes) (gs : List FlowGroup)
      → read totals k (collect_probes scope m gs) ≡ read totals k m + count (has_key scope k) gs
  unfolding collect_probes
  totals-collect_probes k m [] = omega arith
  totals-collect_probes k m (g ∷ gs) =
      omega (arith, totals-collect_probes k (add_probe scope g m) gs, totals-add_probe k g m)

  resets-collect_probes :
      (k : Bytes) (m : Probes) (gs : List FlowGroup)
      → read resets k (collect_probes scope m gs) ≡ read resets k m + count (is_refused scope k) gs
  unfolding collect_probes
  resets-collect_probes k m [] = omega arith
  resets-collect_probes k m (g ∷ gs) =
      omega (arith, resets-collect_probes k (add_probe scope g m) gs, resets-add_probe k g m)

  HasNoRepeat-add_probe :
      (g : FlowGroup) (m : Probes)
      → HasNoRepeat (table_keys m)
      → HasNoRepeat (table_keys (add_probe scope g m))
  unfolding add_probe
  HasNoRepeat-add_probe g m h = elim (Bool-cases (matches_scope g.flow scope)) [
    | inr out ↦ rw out h
    | inl within ↦ elim (Option-cases (first_syn g)) [
      | inl e ↦ rw (within, e) h
      | inr (p, e) ↦
          rw (within, e, keys-update_at (key_of g) (key_flow g.flow) (count_probe g p) m)
            (add_key-HasNoRepeat (key_of g) (table_keys m) h)
    ]
  ]

  HasNoRepeat-collect_probes :
      (m : Probes) (gs : List FlowGroup)
      → HasNoRepeat (table_keys m)
      → HasNoRepeat (table_keys (collect_probes scope m gs))
  unfolding collect_probes
  HasNoRepeat-collect_probes m [] h = h
  HasNoRepeat-collect_probes m (g ∷ gs) h =
      HasNoRepeat-collect_probes (add_probe scope g m) gs (HasNoRepeat-add_probe g m h)

-- In a table without a repeated key, an entry is the one that its key finds.
abbrev IsRead : (ProbeGroup → ℕ) → Probes → Bytes × ProbeGroup → Type 0
IsRead f m e = f e.1 ≡ read f e.0 m

entry-IsRead : (f : ProbeGroup → ℕ) (m : Probes) → HasNoRepeat (table_keys m) → All (IsRead f m) m
entry-IsRead f [] h = tt
entry-IsRead f ((k, e) ∷ m) (n, h) =
    (rw ((eq_bytes_iff k k).1 refl) refl, go m n (entry-IsRead f m h))
  where
    go :
        (r : Probes)
        → All (λ j. j ≢ k) (table_keys r)
        → All (IsRead f m) r
        → All (IsRead f ((k, e) ∷ m)) r
    go [] n a = tt
    go ((j, d) ∷ r) (p, n) (q, a) = (ground (arith, p, q, eq_bytes_iff k j), go r n a)

-- An entry counts the flows of its key, and those of them that the server resets.
pub record IsCounted (scope : Option Scope) (gs : List FlowGroup) (e : Bytes × ProbeGroup)
    : Type 0 where
  pub total : e.1.total ≡ count (has_key scope e.0) gs
  pub rst : e.1.rst ≡ count (is_refused scope e.0) gs

pub collect_probes-IsCounted :
    (scope : Option Scope) (gs : List FlowGroup)
    → All (IsCounted scope gs) (collect_probes scope [] gs)
collect_probes-IsCounted scope gs =
    let m = collect_probes scope [] gs in
    let h = HasNoRepeat-collect_probes scope [] gs tt in
    go m (entry-IsRead totals m h) (entry-IsRead resets m h)
  where
    go :
        (r : Probes)
        → All (IsRead totals (collect_probes scope [] gs)) r
        → All (IsRead resets (collect_probes scope [] gs)) r
        → All (IsCounted scope gs) r
    go [] a b = tt
    go ((k, e) ∷ r) (p, a) (q, b) = (
      record {
        total = omega (arith, p, totals-collect_probes scope k [] gs);
        rst = omega (arith, q, resets-collect_probes scope k [] gs);
      },
      go r a b,
    )
