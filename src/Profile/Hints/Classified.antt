-- ===== src/Profile/Hints/Classified.antt =====
-- The hints count the connections to the virtual server and the others.
use cute_pcap_mcp.Base.{
  ℕ, zero, suc, ◌<◌, true, false, List, [], ◌∷◌, ◌++◌, some, ◌≡◌, refl, sym, ap, ◌∙◌, ◌↔◌, ◌⊎◌, inl,
  inr, ltb, ◌==◌, if◌then◌else◌, All, arith, Bool-cases, Option-cases, length,
}
use mathlib.Core.Option.{some}
use mathlib.Core.List.{Perm, perm_middle}
use mathlib.Core.List.Perm
use cute_pcap_mcp.Base.Text.{eq_bytes_iff, codes, Bytes, trim_space, is_empty}
use cute_pcap_mcp.Base.Int.{negsuc, neg_part, half_word, pos, IsInt64, lt_ℤ, ℤ}
use cute_pcap_mcp.Base.Text.Atoi.{print_int}
use cute_pcap_mcp.Base.Text.Decimal.{decimal}
use cute_pcap_mcp.Profile.Hints.Laws.{matching, others, all_counted, sides_eq}
use cute_pcap_mcp.Profile.Numbers.{int_to_string-print_int}
use cute_pcap_mcp.Signals.{Connection}
use cute_pcap_mcp.Signals.Build.{Summary}
use cute_pcap_mcp.Profile.{int_to_string, Net, F5Context}
use cute_pcap_mcp.Profile.Hints.{
  hint, hint_if_some, Hint, format_snat_evidence, hints_of, matches_vip, classify_all, no_sides,
  hints_for, is_blank, build_snat_hints,
}

positive_part : (z : ℤ) → lt_ℤ (pos 0) z ≡ true → neg_part z < half_word
positive_part (pos n) h = ground arith
positive_part (negsuc n) h = absurd (ground (arith, h))

module _ {Addr : Type 0} (net : Net Addr) where
  -- A connection goes to the virtual server: its destination is the same address, and its port is the wanted
  -- one in decimal, where one is wanted.
  pub record IsMatch (vip : Addr) (port : ℤ) (c : Connection) : Type 0 where
    pub dest : Addr
    pub parsed : net.parse (trim_space c.destination) ≡ some dest
    pub same : net.same dest vip ≡ true
    pub on_port : (lt_ℤ (pos 0) port ≡ false) ⊎ (trim_space c.dest_port ≡ print_int port)

  matches_vip_iff :
      (vip : Addr) (port : ℤ) (c : Connection)
      → IsInt64 port
      → (matches_vip net c vip port ≡ true) ↔ IsMatch vip port c
  unfolding matches_vip
  matches_vip_iff vip port c (p, n) =
      let text : lt_ℤ (pos 0) port ≡ true → int_to_string port ≡ print_int port =
        λ w. int_to_string-print_int port p (positive_part port w) in
      let equal = eq_bytes_iff (trim_space c.dest_port) (int_to_string port) in
      (
        λ h. elim (Option-cases (net.parse (trim_space c.destination))) [
          | inl e ↦ absurd (ground (arith, rw (e) at h))
          | inr (d, e) ↦
              let k = rw (e) at h in
              record {
                dest = d;
                parsed = e;
                same = ground (arith, k);
                on_port = elim (Bool-cases (lt_ℤ (pos 0) port)) [
                  | inl w ↦ inr (equal.0 (ground (arith, k, w)) ∙ text w)
                  | inr w ↦ inl w
                ];
              }
        ],
        λ m.
            rw (m.parsed, m.same)
              (elim m.on_port [
                | inl w ↦ rw (w) refl
                | inr e ↦ elim (Bool-cases (lt_ℤ (pos 0) port)) [
                  | inl w ↦ rw (equal.1 (e ∙ sym (text w)), w) refl
                  | inr w ↦ rw (w) refl
                ]
              ]),
      )

  -- The connections on the two sides, as many as the counts.
  record IsSplit (vip : Addr) (port : ℤ) (conns : List Connection) : Type 0 where
    to_vip : List Connection
    rest : List Connection
    perm : Perm (to_vip ++ rest) conns
    all_match : All (IsMatch vip port) to_vip
    none_match : All (λ c. ¬ IsMatch vip port c) rest
    matched : matching net vip port conns ≡ length to_vip
    unmatched : others net vip port conns ≡ length rest

  conns-IsSplit :
      (vip : Addr) (port : ℤ) (conns : List Connection) → IsInt64 port → IsSplit vip port conns
  conns-IsSplit vip port [] k = record {
    to_vip = [];
    rest = [];
    perm = Perm.refl [];
    all_match = tt;
    none_match = tt;
    matched = refl;
    unmatched = refl;
  }
  conns-IsSplit vip port (c ∷ cs) k =
      let t = conns-IsSplit vip port cs k in
      let iff = matches_vip_iff vip port c k in
      elim (Bool-cases (matches_vip net c vip port)) [
        | inl p ↦ record {
          to_vip = c ∷ t.to_vip;
          rest = t.rest;
          perm = Perm.cons c t.perm;
          all_match = (iff.0 p, t.all_match);
          none_match = t.none_match;
          matched = rw (p) (ap suc t.matched);
          unmatched = rw (p) t.unmatched;
        }
        | inr p ↦ record {
          to_vip = t.to_vip;
          rest = c ∷ t.rest;
          perm = Perm.trans (perm_middle t.to_vip t.rest) (Perm.cons c t.perm);
          all_match = t.all_match;
          none_match = (λ m. absurd (ground (arith, p, iff.1 m)), t.none_match);
          matched = rw (p) t.matched;
          unmatched = rw (p) (ap suc t.unmatched);
        }
      ]

  -- A hint that some connections were seen, with their number.
  abbrev pub counted_hint : ℕ → Bytes → Bytes → List Hint
  counted_hint zero description label = []
  counted_hint (suc n) description label =
      record { description = description; evidence = print_int (pos (suc n)) ++ codes " " ++ label }
      ∷ []

  one_hint :
      (description label : Bytes)
      → hint_if_some 1 description (format_snat_evidence label 1) ≡ counted_hint 1 description label
  unfolding format_snat_evidence print_int decimal
  one_hint description label = refl

  many_hints :
      (n : ℕ) (description label : Bytes)
      → ltb 0 n ≡ true
      → (n == 1) ≡ false
      → hint_if_some n description (format_snat_evidence label n)
        ≡ hint description (int_to_string (pos n) ++ codes " " ++ label) ∷ []
  unfolding format_snat_evidence
  many_hints n description label a b =
      ap (λ t. if t then hint description (format_snat_evidence label n) ∷ [] else []) a
      ∙ ap
          (λ t.
            hint description
              (if t then codes "1 " ++ label else int_to_string (pos n) ++ codes " " ++ label)
            ∷ [])
          b

  hint_if_some-counted :
      (n : ℕ) (description label : Bytes)
      → n < half_word
      → hint_if_some n description (format_snat_evidence label n) ≡ counted_hint n description label
  unfolding format_snat_evidence
  hint_if_some-counted zero description label h = refl
  hint_if_some-counted (suc zero) description label h = one_hint description label
  hint_if_some-counted (suc (suc n)) description label h =
      many_hints (suc (suc n)) description label (ground arith) (ground arith)
      ∙ ap (λ t. hint description (t ++ codes " " ++ label) ∷ [])
          (int_to_string-print_int (pos (suc (suc n))) h (ground arith))

  -- The connections fall into two lists, those that match and those that do not, and the hints tell
  -- how many are in each, leaving an empty one out.
  pub record IsClassified (vip : Addr) (port : ℤ) (conns : List Connection) (hints : List Hint)
      : Type 0 where
    pub to_vip : List Connection
    pub rest : List Connection
    pub perm : Perm (to_vip ++ rest) conns
    pub all_match : All (IsMatch vip port) to_vip
    pub none_match : All (λ c. ¬ IsMatch vip port c) rest
    pub shown :
        hints
        ≡ counted_hint
            (length to_vip)
            (codes "clientside_to_vip_observed")
            (codes "connection(s) destined for the configured VIP")
          ++ counted_hint (length rest) (codes "non_vip_destinations_observed") (
              codes
                "connection(s) destined for non-VIP addresses (possibly serverside, possibly unrelated traffic)")

  hints_of-IsClassified :
      (vip : Addr) (port : ℤ) (conns : List Connection)
      → IsInt64 port
      → length conns < half_word
      → IsClassified vip port conns (hints_of (classify_all net vip port no_sides conns))
  unfolding hints_of
  hints_of-IsClassified vip port conns k few =
      let t = conns-IsSplit vip port conns k in
      let whole = all_counted net vip port conns in
      let a : length t.to_vip < half_word = omega (arith, few, whole, t.matched, t.unmatched) in
      let b : length t.rest < half_word = omega (arith, few, whole, t.matched, t.unmatched) in
      record {
        to_vip = t.to_vip;
        rest = t.rest;
        perm = t.perm;
        all_match = t.all_match;
        none_match = t.none_match;
        shown =
            rw (sides_eq net vip port conns, t.matched, t.unmatched)
              (cc (
                hint_if_some-counted (length t.to_vip) (codes "clientside_to_vip_observed")
                    (codes "connection(s) destined for the configured VIP") a,
                hint_if_some-counted (length t.rest) (codes "non_vip_destinations_observed")
                    (codes
                      "connection(s) destined for non-VIP addresses (possibly serverside, possibly unrelated traffic)")
                    b,
              ));
      }

  -- Under a context with a port of 64 bits and an address that parses, the connections of a summary that has
  -- some, and fewer than 2^63, fall into those that go to this address, on this port where it is positive,
  -- and those that do not; and the hints are one for each side that is not empty, with the number of its
  -- connections.
  pub build_snat_hints-IsClassified :
      (s : Summary) (ctx : F5Context) (vip : Addr) (c : Connection) (cs : List Connection)
      → is_empty (trim_space ctx.virtual_server_ip) ≡ false
      → net.parse (trim_space ctx.virtual_server_ip) ≡ some vip
      → IsInt64 ctx.virtual_server_port
      → s.connections ≡ c ∷ cs
      → length s.connections < half_word
      → IsClassified vip ctx.virtual_server_port s.connections
          (build_snat_hints net (some s) (some ctx))
  unfolding build_snat_hints hints_for is_blank
  build_snat_hints-IsClassified s ctx vip c cs ip parsed port conns few =
      rw (ip, parsed, conns)
        (hints_of-IsClassified vip ctx.virtual_server_port (c ∷ cs) port (rw (conns) at few))
