-- ===== src/Profile/Hints/Laws.antt =====
-- Each connection is on one side, and a profile always has a hint.
use cute_pcap_mcp.Base.{
  ℕ, suc, ◌+◌, ◌<◌, true, not, List, [], ◌∷◌, Option, none, some, ◌≡◌, refl, ◌∙◌, inl, inr, ltb,
  if◌then◌else◌, arith, Bool-cases, length,
}
use mathlib.Core.Option.{none, some}
use cute_pcap_mcp.Base.Text.{trim_space, is_empty}
use cute_pcap_mcp.Base.Int.{ℤ}
use cute_pcap_mcp.Signals.{Connection}
use cute_pcap_mcp.Signals.Build.{Summary, count_if}
use cute_pcap_mcp.Profile.{Net, F5Context}
use cute_pcap_mcp.Profile.Hints.{
  Sides, hints_of, matches_vip, classify_one, classify_all, no_sides, hints_for, with_vip, is_blank,
  all_connections, build_snat_hints,
}

abbrev pub IsSome {ℓ} : {A : Type ℓ} → List A → Type 0
IsSome [] = ⊥
IsSome (x ∷ xs) = Unit

sides_of_parts :
    {s : Sides} {m n : ℕ}
    → s.clientside ≡ m
    → s.serverside ≡ n
    → s ≡ record { clientside = m; serverside = n }
sides_of_parts a b = cc

module _ {Addr : Type 0} (net : Net Addr) where
  clientside-classify_one :
      (vip : Addr) (port : ℤ) (c : Connection) (s : Sides) (n : ℕ)
      → (classify_one net vip port c s).clientside + n
        ≡ s.clientside + (if matches_vip net c vip port then suc n else n)
  clientside-classify_one vip port c s n = elim (Bool-cases (matches_vip net c vip port)) [
    | inl p ↦ rw (p) (omega arith)
    | inr p ↦ rw (p) refl
  ]

  serverside-classify_one :
      (vip : Addr) (port : ℤ) (c : Connection) (s : Sides) (n : ℕ)
      → (classify_one net vip port c s).serverside + n
        ≡ s.serverside + (if not (matches_vip net c vip port) then suc n else n)
  serverside-classify_one vip port c s n = elim (Bool-cases (matches_vip net c vip port)) [
    | inl p ↦ rw (p) refl
    | inr p ↦ rw (p) (omega arith)
  ]

  abbrev pub matching : Addr → ℤ → List Connection → ℕ
  matching vip port cs = count_if (λ c. matches_vip net c vip port) cs

  abbrev pub others : Addr → ℤ → List Connection → ℕ
  others vip port cs = count_if (λ c. not (matches_vip net c vip port)) cs

  clientside-classify_all :
      (vip : Addr) (port : ℤ) (s : Sides) (cs : List Connection)
      → (classify_all net vip port s cs).clientside ≡ s.clientside + matching vip port cs
  unfolding classify_all
  clientside-classify_all vip port s [] = omega arith
  clientside-classify_all vip port s (c ∷ cs) =
      clientside-classify_all vip port (classify_one net vip port c s) cs
      ∙ clientside-classify_one vip port c s (matching vip port cs)

  serverside-classify_all :
      (vip : Addr) (port : ℤ) (s : Sides) (cs : List Connection)
      → (classify_all net vip port s cs).serverside ≡ s.serverside + others vip port cs
  unfolding classify_all
  serverside-classify_all vip port s [] = omega arith
  serverside-classify_all vip port s (c ∷ cs) =
      serverside-classify_all vip port (classify_one net vip port c s) cs
      ∙ serverside-classify_one vip port c s (others vip port cs)

  pub all_counted :
      (vip : Addr) (port : ℤ) (cs : List Connection)
      → matching vip port cs + others vip port cs ≡ length cs
  all_counted vip port [] = omega arith
  all_counted vip port (c ∷ cs) =
      let ih = all_counted vip port cs in
      elim (Bool-cases (matches_vip net c vip port)) [
        | inl p ↦ rw (p) (omega (arith, ih))
        | inr p ↦ rw (p) (omega (arith, ih))
      ]

  pub sides_eq :
      (vip : Addr) (port : ℤ) (cs : List Connection)
      → classify_all net vip port no_sides cs
        ≡ record { clientside = matching vip port cs; serverside = others vip port cs }
  sides_eq vip port cs =
      let a : (classify_all net vip port no_sides cs).clientside ≡ matching vip port cs =
        clientside-classify_all vip port no_sides cs ∙ omega arith in
      let b : (classify_all net vip port no_sides cs).serverside ≡ others vip port cs =
        serverside-classify_all vip port no_sides cs ∙ omega arith in
      sides_of_parts a b

  hints_of-IsSome : (s : Sides) → 0 < s.clientside + s.serverside → IsSome (hints_of s)
  unfolding hints_of
  hints_of-IsSome s h = elim (Bool-cases (ltb 0 s.clientside)) [
    | inl p ↦ rw (p) tt
    | inr p ↦ let q : ltb 0 s.serverside ≡ true = ground (arith, p, h) in rw (p, q) tt
  ]

  hints_for-IsSome :
      (vip : Addr) (port : ℤ) (cs : List Connection) → IsSome (hints_for net vip port cs)
  unfolding hints_for
  hints_for-IsSome vip port [] = tt
  hints_for-IsSome vip port (c ∷ cs) =
      let whole = all_counted vip port (c ∷ cs) in
      rw (sides_eq vip port (c ∷ cs)) (
        hints_of-IsSome
          (record {
            clientside = matching vip port (c ∷ cs);
            serverside = others vip port (c ∷ cs);
          })
          (omega (arith, whole)))

  with_vip-IsSome :
      (vip : Option Addr) (port : ℤ) (cs : List Connection) → IsSome (with_vip net vip port cs)
  with_vip-IsSome none port cs = tt
  with_vip-IsSome (some vip) port cs = hints_for-IsSome vip port cs

  -- There is always a hint, with every context and with none.
  pub build_snat_hints-IsSome :
      (summary : Option Summary) (ctx : Option F5Context)
      → IsSome (build_snat_hints net summary ctx)
  unfolding build_snat_hints
  build_snat_hints-IsSome summary none = tt
  build_snat_hints-IsSome summary (some ctx) = elim (Bool-cases (is_blank ctx)) [
    | inl p ↦ rw (p) tt
    | inr p ↦ elim (Bool-cases (is_empty (trim_space ctx.virtual_server_ip))) [
      | inl q ↦ rw (p, q) tt
      | inr q ↦
          rw (p, q)
            (with_vip-IsSome (net.parse (trim_space ctx.virtual_server_ip)) ctx.virtual_server_port
              (all_connections summary))
    ]
  ]
