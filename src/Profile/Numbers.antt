-- ===== src/Profile/Numbers.antt =====
-- The texts of the profile's numbers are those of strconv.Itoa.
use cute_pcap_mcp.Base.{
  ℕ, zero, suc, ◌+◌, ◌-◌, ◌%◌, ◌/◌, ◌<◌, true, false, [], ◌∷◌, ◌≡◌, refl, sym, ap, ◌∙◌, inl, inr,
  ltb, if◌then◌else◌, arith, Bool-cases,
}
use cute_pcap_mcp.Base.Text.{Bytes, codes}
use cute_pcap_mcp.Base.Text.Decimal.{digits, decimal}
use cute_pcap_mcp.Base.Text.Atoi.{print_int}
use cute_pcap_mcp.Base.Int.{
  ℤ, pos, negsuc, pos_part, neg_part, half_word, sub64, wrap, eq_ℤ, lt_ℤ, ◌-ℤ◌,
}
use cute_pcap_mcp.Profile.{digits_of, loop_digits, int_to_string}

-- The loop stops when its number is 0, before the fuel is spent.
digits_of_zero : (fuel : ℕ) (acc : Bytes) → digits_of fuel 0 acc ≡ acc
unfolding digits_of
digits_of_zero zero acc = refl
digits_of_zero (suc fuel) acc = refl

digits_of_positive :
    (fuel n : ℕ) (acc : Bytes)
    → 0 < n
    → digits_of (suc fuel) n acc ≡ digits_of fuel (n / 10) ((48 + n % 10) ∷ acc)
unfolding digits_of
digits_of_positive fuel n acc p = ground (arith, p)

digits_of_small :
    (fuel n : ℕ) (acc : Bytes)
    → 0 < n
    → ltb n 10 ≡ true
    → digits_of (suc fuel) n acc ≡ digits (suc fuel) n acc
unfolding digits
digits_of_small fuel n acc p q =
    let last : n / 10 ≡ 0 = ground (arith, q) in
    let same : n % 10 ≡ n = ground (arith, q) in
    digits_of_positive fuel n acc p ∙ rw (last, same, q) (digits_of_zero fuel ((48 + n) ∷ acc))

digits_large :
    (fuel n : ℕ) (acc : Bytes)
    → ltb n 10 ≡ false
    → digits (suc fuel) n acc ≡ digits fuel (n / 10) ((48 + n % 10) ∷ acc)
unfolding digits
digits_large fuel n acc q = rw (digits, q) refl

digits_of-digits :
    (fuel n : ℕ) (acc : Bytes)
    → 0 < n
    → n < suc fuel
    → digits_of (suc fuel) n acc ≡ digits (suc fuel) n acc
digits_of-digits zero n acc p h = absurd (ground (arith, p, h))
digits_of-digits (suc fuel) n acc p h = elim (Bool-cases (ltb n 10)) [
  | inl q ↦ digits_of_small (suc fuel) n acc p q
  | inr q ↦
      digits_of_positive (suc fuel) n acc p
      ∙ digits_of-digits fuel (n / 10) ((48 + n % 10) ∷ acc) (ground (arith, q))
          (ground (arith, h, q))
      ∙ sym (digits_large (suc fuel) n acc q)
]

loop_digits-decimal : (n : ℕ) → 0 < n → loop_digits (pos n) ≡ decimal n
unfolding decimal
loop_digits-decimal n p = digits_of-digits n n [] p (omega arith)

-- What the negation of an int64 above the least is.
negated : (n : ℕ) → suc n < half_word → sub64 (pos 0) (negsuc n) ≡ pos (suc n)
unfolding sub64 wrap ◌-ℤ◌
negated n h = ground (arith, h)

int_to_string_positive : (k : ℕ) → int_to_string (pos (suc k)) ≡ loop_digits (pos (suc k))
unfolding int_to_string
int_to_string_positive k =
    let positive : eq_ℤ (pos (suc k)) (pos 0) ≡ false = ground arith in
    let not_below : lt_ℤ (pos (suc k)) (pos 0) ≡ false = ground arith in
    ap
      (λ b.
        if b
        then codes "0"
        else if lt_ℤ (pos (suc k)) (pos 0)
        then b'-' ∷ loop_digits (sub64 (pos 0) (pos (suc k)))
        else loop_digits (pos (suc k)))
      positive
    ∙ ap
        (λ b.
          if b then b'-' ∷ loop_digits (sub64 (pos 0) (pos (suc k))) else loop_digits (pos (suc k)))
        not_below

int_to_string_negative :
    (k : ℕ) → int_to_string (negsuc k) ≡ b'-' ∷ loop_digits (sub64 (pos 0) (negsuc k))
unfolding int_to_string
int_to_string_negative k =
    let nonzero : eq_ℤ (negsuc k) (pos 0) ≡ false = ground arith in
    let below : lt_ℤ (negsuc k) (pos 0) ≡ true = ground arith in
    ap
      (λ b.
        if b
        then codes "0"
        else if lt_ℤ (negsuc k) (pos 0)
        then b'-' ∷ loop_digits (sub64 (pos 0) (negsuc k))
        else loop_digits (negsuc k))
      nonzero
    ∙ ap (λ b. if b then b'-' ∷ loop_digits (sub64 (pos 0) (negsuc k)) else loop_digits (negsuc k))
        below

-- The loop of intToString ends with the text that strconv.Itoa gives, for each int64 but the least.
pub int_to_string-print_int :
    (z : ℤ) → pos_part z < half_word → neg_part z < half_word → int_to_string z ≡ print_int z
unfolding int_to_string print_int decimal
int_to_string-print_int (pos zero) p n = refl
int_to_string-print_int (pos (suc k)) p n =
    int_to_string_positive k ∙ loop_digits-decimal (suc k) (omega arith)
int_to_string-print_int (negsuc k) p n =
    int_to_string_negative k
    ∙ ap (λ z. b'-' ∷ loop_digits z) (negated k n)
    ∙ ap (λ t. b'-' ∷ t) (loop_digits-decimal (suc k) (omega arith))

-- The least int64 is its own negation, so its loop does not run.
pub int_to_string_least : int_to_string (negsuc (half_word - 1)) ≡ codes "-"
unfolding int_to_string
int_to_string_least = refl
