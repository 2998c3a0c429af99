-- ===== src/Base/Text/Decimal.antt =====
-- Decimal numerals: strconv.Itoa and the verb %d.
use Prim.Native.Nat.{ℕ, zero, suc, ◌+◌, ◌-◌, ◌*◌, ◌/◌, ◌%◌, ◌<◌}
use mathlib.Core.Path.{◌≡◌, refl, sym, ap, ◌∙◌}
use mathlib.Core.Bool.{Bool, true, ◌&&◌}
use mathlib.Core.List.{[], ◌∷◌}
use mathlib.Core.Logic.{inl, inr}
use native.Mathlib.Omega.{arith}
use cute_pcap_mcp.Base.Tests.{ltb, leb, if◌then◌else◌, Bool-cases}
use cute_pcap_mcp.Base.Lists.{all}
use cute_pcap_mcp.Base.Text.{false, Bytes}

unfoldable pub digits : ℕ → ℕ → Bytes → Bytes
digits zero n acc = acc
digits (suc fuel) n acc =
    let rest = digits fuel (n / 10) ((48 + n % 10) ∷ acc) in
    if ltb n 10 then (48 + n) ∷ acc else rest

unfoldable pub decimal : ℕ → Bytes
unfolding digits
decimal n = digits (suc n) n []

-- The number that a numeral stands for.
unfoldable pub value : ℕ → Bytes → ℕ
value v [] = v
value v (c ∷ s) = value (v * 10 + (c - 48)) s

value-digits : (fuel n : ℕ) (acc : Bytes) → n < fuel → value 0 (digits fuel n acc) ≡ value n acc
unfolding value digits
value-digits zero n acc h = elim h [ ]
value-digits (suc fuel) n acc h = elim (Bool-cases (ltb n 10)) [
  | inl p ↦ rw p (ap (λ k. value k acc) (omega arith))
  | inr p ↦ rw p (
      value-digits fuel (n / 10) ((48 + n % 10) ∷ acc) (ground arith)
      ∙ ap (λ k. value k acc) (omega arith))
]

-- Different numbers have different numerals.
pub decimal_injective : (m n : ℕ) → decimal m ≡ decimal n → m ≡ n
unfolding decimal value
decimal_injective m n e =
    sym (value-digits (suc m) m [] (omega arith))
    ∙ ap (value 0) e
    ∙ value-digits (suc n) n [] (omega arith)

abbrev pub is_digit : ℕ → Bool
is_digit c = leb 48 c && leb c 57

digits_are_digits :
    (fuel n : ℕ) (acc : Bytes) → all is_digit acc ≡ true → all is_digit (digits fuel n acc) ≡ true
unfolding digits
digits_are_digits zero n acc h = h
digits_are_digits (suc fuel) n acc h =
    ground (arith, digits_are_digits fuel (n / 10) ((48 + n % 10) ∷ acc))

abbrev is_cons : Bytes → Bool
is_cons [] = false
is_cons (c ∷ s) = true

digits_keep : (fuel n c : ℕ) (acc : Bytes) → is_cons (digits fuel n (c ∷ acc)) ≡ true
unfolding digits
digits_keep zero n c acc = refl
digits_keep (suc fuel) n c acc = ground (arith, digits_keep fuel (n / 10) (48 + n % 10) (c ∷ acc))

decimal_some : (n : ℕ) → is_cons (decimal n) ≡ true
unfolding decimal digits
decimal_some n = ground (arith, digits_keep n (n / 10) (48 + n % 10) [])

pub decimal_digits : (n : ℕ) → all is_digit (decimal n) ≡ true
unfolding decimal
decimal_digits n = digits_are_digits (suc n) n [] refl

pub value-decimal : (n : ℕ) → value 0 (decimal n) ≡ n
unfolding decimal value
value-decimal n = value-digits (suc n) n [] (omega arith)

split_first :
    (s : Bytes)
    → is_cons s ≡ true
    → all is_digit s ≡ true
    → (c : ℕ) × (t : Bytes) × (s ≡ c ∷ t) × (is_digit c ≡ true)
split_first [] h k = cc
split_first (c ∷ t) h k = (c, t, refl, ground arith)

-- A numeral starts with a digit.
pub decimal_first : (n : ℕ) → (c : ℕ) × (s : Bytes) × (decimal n ≡ c ∷ s) × (is_digit c ≡ true)
decimal_first n = split_first (decimal n) (decimal_some n) (decimal_digits n)
