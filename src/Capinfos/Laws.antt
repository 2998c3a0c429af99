-- ===== src/Capinfos/Laws.antt =====
-- The numbers that capinfos prints are read back.
use cute_pcap_mcp.Base.{
  ℕ, suc, true, false, [], ◌∷◌, ◌++◌, Option, some, ◌≡◌, ◌≢◌, refl, sym, ap, ◌∙◌, arith, all,
}
use mathlib.Core.Option.{some}
use mathlib.Core.List.{append-nil}
use cute_pcap_mcp.Base.Text.{Bytes, is_empty}
use cute_pcap_mcp.Base.Text.Decimal.{is_digit, decimal, decimal_digits, decimal_first}
use cute_pcap_mcp.Base.Text.Atoi.{atoi, print_int, atoi-print_int}
use cute_pcap_mcp.Base.Int.{ℤ, pos, negsuc, IsInt64}
use cute_pcap_mcp.Capinfos.{
  digits, after_digits, fraction, unsigned_number, leading_number, int_of, parse_leading_int64,
}

-- What may follow a number: nothing, or a byte that does not go on with it.
abbrev pub IsUnit : Bytes → Type 0
IsUnit [] = Unit
IsUnit (c ∷ s) = (is_digit c ≡ false) × (c ≢ b'.')

digits-append : (d s : Bytes) → all is_digit d ≡ true → IsUnit s → digits (d ++ s) ≡ d
unfolding digits
digits-append [] [] h u = refl
digits-append [] (c ∷ s) h (p, q) = rw (p) refl
digits-append (b ∷ d) s h u = ground (arith, digits-append d s, u)

after_digits-append : (d s : Bytes) → all is_digit d ≡ true → IsUnit s → after_digits (d ++ s) ≡ s
unfolding after_digits
after_digits-append [] [] h u = refl
after_digits-append [] (c ∷ s) h (p, q) = rw (p) refl
after_digits-append (b ∷ d) s h u = ground (arith, after_digits-append d s, u)

fraction_of_unit : (s : Bytes) → IsUnit s → fraction s ≡ []
fraction_of_unit [] u = refl
fraction_of_unit (c ∷ s) (p, q) = ground (arith, q)

is_empty-decimal : (n : ℕ) → is_empty (decimal n) ≡ false
is_empty-decimal n = let (c, t, e, q) = decimal_first n in ap is_empty e

unsigned_number-decimal :
    (n : ℕ) (s : Bytes) → IsUnit s → unsigned_number (decimal n ++ s) ≡ decimal n
unsigned_number-decimal n s u =
    rw
      (
        digits-append (decimal n) s (decimal_digits n) u,
        after_digits-append (decimal n) s (decimal_digits n) u,
        fraction_of_unit s u,
        is_empty-decimal n,
      )
      (append-nil (decimal n))

-- A text that starts with a digit has no sign.
leading_number-digit :
    (c : ℕ) (t : Bytes) → is_digit c ≡ true → leading_number (c ∷ t) ≡ unsigned_number (c ∷ t)
unfolding leading_number
leading_number-digit c t h = ground arith

leading_number-decimal :
    (n : ℕ) (s : Bytes) → IsUnit s → leading_number (decimal n ++ s) ≡ decimal n
leading_number-decimal n s u =
    let (c, t, e, q) = decimal_first n in
    let split : decimal n ++ s ≡ c ∷ t ++ s = ap (λ d. d ++ s) e in
    ap leading_number split
    ∙ leading_number-digit c (t ++ s) q
    ∙ ap unsigned_number (sym split)
    ∙ unsigned_number-decimal n s u

leading_number-print_int :
    (z : ℤ) (s : Bytes) → IsUnit s → leading_number (print_int z ++ s) ≡ print_int z
unfolding leading_number print_int
leading_number-print_int (pos n) s u = leading_number-decimal n s u
leading_number-print_int (negsuc n) s u =
    rw (unsigned_number-decimal (suc n) s u, is_empty-decimal (suc n)) refl

atoi_empty : (z : ℤ) → atoi [] ≢ some z
unfolding atoi
atoi_empty z e = ground (arith, e)

module _ {F : Type 0} (zero_float : F) (to_float : Bytes → F) (to_int : Bytes → Option ℤ) where
  int_of-atoi : (s : Bytes) (z : ℤ) → atoi s ≡ some z → int_of zero_float to_float to_int s ≡ z
  int_of-atoi [] z e = absurd (atoi_empty z e)
  int_of-atoi (c ∷ s) z e = rw (int_of, e) refl

  -- An int64 that is printed in front of a unit is read back, whatever is done with other numerals.
  pub parse_leading_int64-print_int :
      (z : ℤ) (s : Bytes)
      → IsInt64 z
      → IsUnit s
      → parse_leading_int64 zero_float to_float to_int (print_int z ++ s) ≡ z
  unfolding parse_leading_int64
  parse_leading_int64-print_int z s h u =
      ap (int_of zero_float to_float to_int) (leading_number-print_int z s u)
      ∙ int_of-atoi (print_int z) z (atoi-print_int z h)
