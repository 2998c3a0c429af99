-- ===== src/Diagnose/Flows/Keys.antt =====
-- The key of a flow names its two endpoints, in either direction.
use mathlib.Core.List.{append_assoc}
use cute_pcap_mcp.Base.{
  ℕ, true, false, [], ◌∷◌, ◌++◌, ◌≡◌, ◌≢◌, refl, sym, ap, ◌∙◌, ◌↔◌, ◌⊎◌, inl, inr, all, All-append,
  arith,
}
use cute_pcap_mcp.Base.Text.{Bytes, codes, eq_bytes_iff}
use cute_pcap_mcp.Base.Text.Laws.{lt_bytes_total, lt_bytes_asym}
use cute_pcap_mcp.Base.Text.Decimal.{decimal, decimal_injective, decimal_digits, is_digit}
use cute_pcap_mcp.Base.Text.Splits.{Lacks, first_split, last_split}
use cute_pcap_mcp.Base.Int.{ℤ, pos, negsuc}
use cute_pcap_mcp.Base.Text.Atoi.{print_int}
use cute_pcap_mcp.Diagnose.{Packet, Endpoint}
use cute_pcap_mcp.Diagnose.Flows.{
  endpoint_less, source, destination, ordered_pair, print_key, canonical_key, is_groupable,
}

-- The same packet sent the other way.
abbrev pub reply : Packet → Packet
reply p = record p {
  src_ip = p.dst_ip;
  dst_ip = p.src_ip;
  src_port = p.dst_port;
  dst_port = p.src_port;
}

endpoint_less_asym : (a b : Endpoint) → endpoint_less a b ≡ true → endpoint_less b a ≡ false
unfolding endpoint_less
endpoint_less_asym a b h =
    ground (arith, eq_bytes_iff a.ip b.ip, eq_bytes_iff b.ip a.ip, lt_bytes_asym a.ip b.ip)

endpoint_less_total :
    (a b : Endpoint) → endpoint_less a b ≡ false → endpoint_less b a ≡ false → a ≡ b
unfolding endpoint_less
endpoint_less_total a b h k =
    ground (arith, eq_bytes_iff a.ip b.ip, eq_bytes_iff b.ip a.ip, lt_bytes_total a.ip b.ip)

pub ordered_pair-reply : (p : Packet) → ordered_pair (reply p) ≡ ordered_pair p
unfolding ordered_pair
ordered_pair-reply p = ground (
  arith,
  endpoint_less_asym (source p) (destination p),
  endpoint_less_asym (destination p) (source p),
  endpoint_less_total (source p) (destination p),
)

-- Two packets go between the same endpoints.
abbrev pub SameEndpoints : Packet → Packet → Type 0
SameEndpoints p q =
    ((source p ≡ source q) × (destination p ≡ destination q))
    ⊎ ((source p ≡ destination q) × (destination p ≡ source q))

-- What tshark prints: addresses hold no dash, and ports are not negative.
pub record IsPrintable (p : Packet) : Type 0 where
  pub source_ip : Lacks b'-' p.src_ip
  pub destination_ip : Lacks b'-' p.dst_ip
  pub source_port : (n : ℕ) × (p.src_port ≡ pos n)
  pub destination_port : (n : ℕ) × (p.dst_port ≡ pos n)

digits-Lacks : (c : ℕ) (s : Bytes) → is_digit c ≡ false → all is_digit s ≡ true → Lacks c s
digits-Lacks c [] h k = tt
digits-Lacks c (b ∷ s) h k = (λ e. ground arith, digits-Lacks c s h (ground arith))

-- %s:%d
abbrev half : Endpoint → Bytes
half e = e.ip ++ b':' ∷ print_int e.port

print_key_halves :
    (a b : Endpoint) (protocol : Bytes)
    → print_key a b protocol ≡ half a ++ b'-' ∷ (half b ++ b'/' ∷ protocol)
unfolding print_key
print_key_halves a b protocol = simp append_assoc

-- An endpoint whose address holds no dash and whose port is not negative.
abbrev IsPlain : Endpoint → Type 0
IsPlain e = Lacks b'-' e.ip × ((n : ℕ) × (e.port ≡ pos n))

Lacks-print_int :
    (c : ℕ) (z : ℤ) → is_digit c ≡ false → (n : ℕ) × (z ≡ pos n) → Lacks c (print_int z)
unfolding print_int
Lacks-print_int c z h (n, e) = rw e (digits-Lacks c (decimal n) h (decimal_digits n))

half-Lacks : (e : Endpoint) → IsPlain e → Lacks b'-' (half e)
half-Lacks e (h, k) =
    All-append (λ b. b ≢ b'-') e.ip (b':' ∷ print_int e.port) h
      (omega arith, Lacks-print_int b'-' e.port refl k)

print_int_injective :
    (y z : ℤ) → (n : ℕ) × (y ≡ pos n) → (n : ℕ) × (z ≡ pos n) → print_int y ≡ print_int z → y ≡ z
unfolding print_int
print_int_injective (pos m) (pos n) h k e = ap pos (decimal_injective m n e)
print_int_injective (negsuc m) z (n, h) k e = cc
print_int_injective (pos m) (negsuc n) h (l, k) e = cc

half_injective : (a b : Endpoint) → IsPlain a → IsPlain b → half a ≡ half b → a ≡ b
half_injective a b (_, h) (_, k) e =
    let (p, q) =
      last_split b':' a.ip b.ip (print_int a.port) (print_int b.port)
        (Lacks-print_int b':' a.port refl h) (Lacks-print_int b':' b.port refl k) e in
    let r = print_int_injective a.port b.port h k q in λ i. record { ip = p i; port = r i }

print_key_injective :
    (a b c d : Endpoint) (protocol : Bytes)
    → IsPlain a
    → IsPlain b
    → IsPlain c
    → IsPlain d
    → Lacks b'/' protocol
    → print_key a b protocol ≡ print_key c d protocol
    → (a ≡ c) × (b ≡ d)
print_key_injective a b c d protocol ha hb hc hd h e =
    let (p, q) =
      first_split b'-' (half a) (half c) (half b ++ b'/' ∷ protocol) (half d ++ b'/' ∷ protocol)
        (half-Lacks a ha) (half-Lacks c hc)
        (sym (print_key_halves a b protocol) ∙ e ∙ print_key_halves c d protocol) in
    let (r, _) = last_split b'/' (half b) (half d) protocol protocol h h q in
    (half_injective a c ha hc p, half_injective b d hb hd r)

pub groupable_protocol : (p : Packet) → is_groupable p ≡ true → p.protocol ≡ codes "tcp"
unfolding is_groupable
groupable_protocol p h = ground (arith, eq_bytes_iff p.protocol (codes "tcp"))

ordered_pair-cases :
    (p : Packet)
    → (ordered_pair p ≡ (source p, destination p)) ⊎ (ordered_pair p ≡ (destination p, source p))
unfolding ordered_pair
ordered_pair-cases p = ground arith

module _ (p q : Packet) where
  pairs-SameEndpoints : ordered_pair p ≡ ordered_pair q → SameEndpoints p q
  pairs-SameEndpoints e = ground (arith, ordered_pair-cases p, ordered_pair-cases q)

  SameEndpoints-pairs : SameEndpoints p q → ordered_pair p ≡ ordered_pair q
  unfolding ordered_pair
  SameEndpoints-pairs e = ground (
    arith,
    endpoint_less_asym (source p) (destination p),
    endpoint_less_asym (destination p) (source p),
    endpoint_less_total (source p) (destination p),
  )

record IsPlainPair (w : Endpoint × Endpoint) : Type 0 where
  smaller : IsPlain w.0
  larger : IsPlain w.1

ordered_pair-IsPlain : (p : Packet) → IsPrintable p → IsPlainPair (ordered_pair p)
ordered_pair-IsPlain p h =
    let s : IsPlain (source p) = (h.source_ip, h.source_port) in
    let d : IsPlain (destination p) = (h.destination_ip, h.destination_port) in
    elim (ordered_pair-cases p) [
      | inl e ↦ rw e (record { smaller = s; larger = d })
      | inr e ↦ rw e (record { smaller = d; larger = s })
    ]

canonical_key_form :
    (p : Packet)
    → is_groupable p ≡ true
    → canonical_key p ≡ print_key (ordered_pair p).0 (ordered_pair p).1 (codes "tcp")
unfolding canonical_key
canonical_key_form p h =
    ap (print_key (ordered_pair p).0 (ordered_pair p).1) (groupable_protocol p h)

-- Two packets that can be grouped have the same key exactly if they go between the same endpoints,
-- in whatever direction.
pub canonical_key_iff :
    (p q : Packet)
    → is_groupable p ≡ true
    → is_groupable q ≡ true
    → IsPrintable p
    → IsPrintable q
    → (canonical_key p ≡ canonical_key q) ↔ SameEndpoints p q
canonical_key_iff p q gp gq hp hq = (
  λ e.
      let P = ordered_pair-IsPlain p hp in
      let Q = ordered_pair-IsPlain q hq in
      let (x, y) =
        print_key_injective _ _ _ _ (codes "tcp") P.smaller P.larger Q.smaller Q.larger
          (omega arith) (sym (canonical_key_form p gp) ∙ e ∙ canonical_key_form q gq) in
      pairs-SameEndpoints p q (λ i. (x i, y i)),
  λ e. canonical_key_form p gp ∙ rw (SameEndpoints-pairs p q e) (sym (canonical_key_form q gq)),
)
