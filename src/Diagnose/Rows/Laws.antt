-- ===== src/Diagnose/Rows/Laws.antt =====
-- Numbers printed by tshark are read back, and which rows become packets of a TCP flow.
use mathlib.Core.Path.{subst}
use cute_pcap_mcp.Base.{
  ◌≢◌, ℕ, suc, Bool, true, false, not, ◌||◌, List, [], ◌∷◌, Option, ◌≡◌, refl, ap, ◌∙◌, ◌⊎◌, inl,
  inr, arith, Bool-cases, all,
}
use mathlib.Core.List.{reverse, reverse_aux, reverse-reverse}
use cute_pcap_mcp.Base.Int.{ℤ, pos, negsuc, IsInt64}
use cute_pcap_mcp.Base.Text.{
  Bytes, codes, contains, eq_bytes, eq_bytes_iff, is_space, trim_left, trim_space, to_lower,
  is_empty, first_non_empty,
}
use cute_pcap_mcp.Base.Text.Atoi.{print_int, atoi-print_int}
use cute_pcap_mcp.Base.Text.Decimal.{decimal_first, decimal, decimal_digits, is_digit}
use cute_pcap_mcp.Diagnose.Flows.{is_groupable}
use cute_pcap_mcp.Diagnose.Rows.{protocol_class, atoi_default, normalize_protocol, field, packet_of}

abbrev not_space : ℕ → Bool
not_space c = not (is_space c)

trim_left_none : (s : Bytes) → all not_space s ≡ true → trim_left s ≡ s
unfolding trim_left
trim_left_none [] h = refl
trim_left_none (c ∷ s) h = ground arith

digits_not_space : (s : Bytes) → all is_digit s ≡ true → all not_space s ≡ true
digits_not_space [] h = refl
digits_not_space (c ∷ s) h = ground (arith, digits_not_space s)

print_int-plain : (z : ℤ) → all not_space (print_int z) ≡ true
unfolding print_int
print_int-plain (pos n) = digits_not_space (decimal n) (decimal_digits n)
print_int-plain (negsuc n) = digits_not_space (decimal (suc n)) (decimal_digits (suc n))

all-reverse_aux :
    (s t : Bytes)
    → all not_space s ≡ true
    → all not_space t ≡ true
    → all not_space (reverse_aux s t) ≡ true
all-reverse_aux [] t h k = k
all-reverse_aux (c ∷ s) t h k = all-reverse_aux s (c ∷ t) (ground arith) (ground arith)

trim_space_none : (s : Bytes) → all not_space s ≡ true → trim_space s ≡ s
unfolding trim_space
trim_space_none s h =
    ap (λ t. reverse (trim_left (reverse t))) (trim_left_none s h)
    ∙ (ap reverse (trim_left_none (reverse s) (all-reverse_aux s [] h refl)) ∙ reverse-reverse s)

print_int_some : (z : ℤ) → is_empty (print_int z) ≡ false
unfolding print_int
print_int_some (pos n) = let (c, s, e, d) = decimal_first n in ap is_empty e
print_int_some (negsuc n) = refl

-- A printed integer of 64 bits is read back, whatever the fallback.
pub atoi_default-print_int : (z fallback : ℤ) → IsInt64 z → atoi_default (print_int z) fallback ≡ z
unfolding atoi_default
atoi_default-print_int z fallback h =
    let same = trim_space_none (print_int z) (print_int-plain z) in
    rw (same, print_int_some z, atoi-print_int z h) refl

-- The column of a packet's protocol, in lower case.
abbrev pub column : List Bytes → Bytes
column row = to_lower (trim_space (to_lower (field row 14)))

abbrev pub names_tcp : Bytes → Bool
names_tcp s = contains s (codes "tcp") || contains s (codes "tls") || contains s (codes "http")

tcp_names_tcp : names_tcp (codes "tcp") ≢ false
unfolding contains
tcp_names_tcp e = cc

class_other :
    (p : Bytes)
    → names_tcp p ≡ false
    → eq_bytes p (codes "tcp") ≡ false
    → eq_bytes (protocol_class p) (codes "tcp") ≡ false
unfolding protocol_class eq_bytes
class_other p h e = ground (arith, h, e)

other_class : (p : Bytes) → names_tcp p ≡ false → eq_bytes (protocol_class p) (codes "tcp") ≡ false
other_class p h = elim (Bool-cases (eq_bytes p (codes "tcp"))) [
  | inl e ↦
      absurd
        (tcp_names_tcp (subst (λ q. names_tcp q ≡ false) ((eq_bytes_iff p (codes "tcp")).0 e) h))
  | inr e ↦ class_other p h e
]

-- A packet belongs to a flow only if its protocol column is empty or names TCP, TLS or HTTP,
-- whatever its ports are. A segment that tshark labels with another protocol over TCP, such as SMTP
-- or SSH, belongs to no flow.
pub packet_of-groupable :
    (milliseconds : Bytes → Option ℤ) (row : List Bytes)
    → is_groupable (packet_of milliseconds row) ≡ true
    → (is_empty (field row 14) ≡ true) ⊎ (names_tcp (column row) ≡ true)
unfolding is_groupable packet_of normalize_protocol first_non_empty
packet_of-groupable milliseconds row h = elim (Bool-cases (is_empty (field row 14))) [
  | inl e ↦ inl e
  | inr e ↦ elim (Bool-cases (names_tcp (column row))) [
    | inl n ↦ inr n
    | inr n ↦ absurd (ground (arith, other_class (column row)))
  ]
]
