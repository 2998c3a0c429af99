-- ===== src/Diagnose/Probes/Laws.antt =====
-- What a probe symptom says, whatever the order in which Go visits the table.
use cute_pcap_mcp.Base.{◌*◌, ◌≤◌, List, [], ◌∷◌, Option, some, ◌≡◌, refl, sym, All, arith}
use mathlib.Core.Path.{subst}
use mathlib.Core.List.{Permᴰ}
use mathlib.Core.List.Permᴰ.{nil, cons, swap, trans}
use cute_pcap_mcp.Base.Text.{Bytes}
use cute_pcap_mcp.Base.Int.{pos, ◌≤ℤ◌}
use cute_pcap_mcp.Diagnose.{FlowGroup, Scope, Symptom, monitor_probe_rst}
use cute_pcap_mcp.Diagnose.Windows.{median_interval}
use cute_pcap_mcp.Diagnose.Probes.{
  Probes, ProbeGroup, max_probe_cadence_ms, probe_symptom, judge, judge_all, collect_probes,
  detect_probes,
}
use cute_pcap_mcp.Diagnose.Windows.Laws.{All-prepend}
use cute_pcap_mcp.Diagnose.Probes.Counts.{
  has_key, is_refused, count, IsCounted, collect_probes-IsCounted,
}

All-Permᴰ : {A : Type 0} (P : A → Type 0) (xs ys : List A) → Permᴰ xs ys → All P xs → All P ys
All-Permᴰ P _ _ nil h = tt
All-Permᴰ P _ _ (cons e p) (a, h) = (subst P e a, All-Permᴰ P _ _ p h)
All-Permᴰ P _ _ (swap e f) (a, (b, h)) = (subst P f b, (subst P e a, h))
All-Permᴰ P _ _ (trans p q) h = All-Permᴰ P _ _ q (All-Permᴰ P _ _ p h)

pub judge-some :
    (e : ProbeGroup) (s : Symptom)
    → judge e ≡ some s
    → (3 ≤ e.total)
      × (9 * e.total ≤ 10 * e.rst)
      × (median_interval e.start_ms ≤ℤ max_probe_cadence_ms)
      × (s ≡ probe_symptom e)
unfolding judge
judge-some e s h = (ground arith, ground arith, ground arith, ground arith)

-- The symptom of the probes with some key: it gives the number of flows of the scope with the key
-- and a SYN of the client, at least 3 of them, and at least nine tenths of these the server resets.
pub record IsProbeSymptom (scope : Option Scope) (gs : List FlowGroup) (s : Symptom) : Type 0 where
  pub key : Bytes
  pub code : s.code ≡ monitor_probe_rst
  pub counts : s.evidence.probe_count ≡ count (has_key scope key) gs
  pub ratio : s.evidence.rst_ratio ≡ record {
    numerator = pos (count (is_refused scope key) gs);
    denominator = count (has_key scope key) gs;
  }
  pub enough : 3 ≤ count (has_key scope key) gs
  pub mostly : 9 * count (has_key scope key) gs ≤ 10 * count (is_refused scope key) gs
  pub cadence : s.evidence.probe_cadence_seconds_p50.numerator ≤ℤ max_probe_cadence_ms

symptom_of_entry :
    (scope : Option Scope) (gs : List FlowGroup) (e : Bytes × ProbeGroup) (s : Symptom)
    → IsCounted scope gs e
    → judge e.1 ≡ some s
    → IsProbeSymptom scope gs s
unfolding probe_symptom
symptom_of_entry scope gs (k, e) s c h =
    let (enough, mostly, cadence, same) = judge-some e s h in
    subst (IsProbeSymptom scope gs) (sym same) (record {
      key = k;
      code = refl;
      counts = c.total;
      ratio = rw (c.total, c.rst) refl;
      enough = subst (λ n. 3 ≤ n) c.total enough;
      mostly = rw (c.total, c.rst) at mostly;
      cadence = cadence;
    })

judge_all-All :
    (scope : Option Scope) (gs : List FlowGroup) (m : Probes)
    → All (IsCounted scope gs) m
    → All (IsProbeSymptom scope gs) (judge_all m)
unfolding judge_all
judge_all-All scope gs [] h = tt
judge_all-All scope gs ((k, e) ∷ m) (c, h) =
    All-prepend (IsProbeSymptom scope gs) (judge e) (judge_all m)
      (λ s p. symptom_of_entry scope gs (k, e) s c p) (judge_all-All scope gs m h)

-- In whatever order the table is visited, each symptom is that of the probes with some key.
pub detect_probes-All :
    (order : Probes → Probes) (gs : List FlowGroup) (scope : Option Scope)
    → ((m : Probes) → Permᴰ m (order m))
    → All (IsProbeSymptom scope gs) (detect_probes order gs scope)
unfolding detect_probes
detect_probes-All order gs scope p =
    let m = collect_probes scope [] gs in
    judge_all-All scope gs (order m)
      (All-Permᴰ (IsCounted scope gs) m (order m) (p m) (collect_probes-IsCounted scope gs))
