-- ===== src/Base/Text/Atoi.antt =====
-- strconv.Atoi, as internal/pcap uses it: a sign and decimal digits, in the range of an int.
use Prim.Native.Nat.{ℕ, suc, ◌+◌, ◌-◌, ◌*◌}
use mathlib.Core.Path.{◌≡◌, refl, sym, ap, ◌∙◌}
use mathlib.Core.Bool.{true}
use mathlib.Core.List.{[], ◌∷◌}
use mathlib.Core.Option.{Option, none, some}
use native.Mathlib.Omega.{arith}
use cute_pcap_mcp.Base.Tests.{ltb, leb, ◌==◌, if◌then◌else◌}
use cute_pcap_mcp.Base.Lists.{all}
use cute_pcap_mcp.Base.Int.{ℤ, pos, negsuc, half_word, IsInt64}
use cute_pcap_mcp.Base.Text.{Bytes}
use cute_pcap_mcp.Base.Text.Decimal.{
  decimal, is_digit, value, value-decimal, decimal_digits, decimal_first,
}

unfoldable pub parse_digits : ℕ → Bytes → Option ℕ
parse_digits v [] = some v
parse_digits v (c ∷ s) =
    let rest = parse_digits (v * 10 + (c - 48)) s in if is_digit c then rest else none

unfoldable pub unsigned : Bytes → Option ℕ
unfolding parse_digits
unsigned [] = none
unsigned (c ∷ s) = parse_digits 0 (c ∷ s)

abbrev pub positive : Option ℕ → Option ℤ
positive none = none
positive (some n) = if ltb n half_word then some (pos n) else none

abbrev pub negative : Option ℕ → Option ℤ
negative none = none
negative (some n) =
    if n == 0 then some (pos 0) else if leb n half_word then some (negsuc (n - 1)) else none

-- `none` is the error of a text that is no numeral or out of range.
unfoldable pub atoi : Bytes → Option ℤ
unfolding unsigned
atoi [] = none
atoi (c ∷ s) =
    if c == b'-'
    then negative (unsigned s)
    else if c == b'+'
    then positive (unsigned s)
    else positive (unsigned (c ∷ s))

parse_digits-value :
    (v : ℕ) (s : Bytes) → all is_digit s ≡ true → parse_digits v s ≡ some (value v s)
unfolding parse_digits value
parse_digits-value v [] h = refl
parse_digits-value v (c ∷ s) h = ground (arith, parse_digits-value (v * 10 + (c - 48)) s)

unsigned_some : (s t : Bytes) (c : ℕ) → s ≡ c ∷ t → unsigned s ≡ parse_digits 0 s
unfolding unsigned
unsigned_some s t c e = ap unsigned e ∙ ap (parse_digits 0) (sym e)

unsigned-decimal : (n : ℕ) → unsigned (decimal n) ≡ some n
unsigned-decimal n =
    let (c, s, e, d) = decimal_first n in
    unsigned_some (decimal n) s c e
    ∙ (parse_digits-value 0 (decimal n) (decimal_digits n) ∙ ap some (value-decimal n))

atoi_without_sign :
    (c : ℕ) (s : Bytes) → is_digit c ≡ true → atoi (c ∷ s) ≡ positive (unsigned (c ∷ s))
unfolding atoi
atoi_without_sign c s d = ground arith

-- The text of an integer, as %d prints it.
unfoldable pub print_int : ℤ → Bytes
print_int (pos n) = decimal n
print_int (negsuc n) = b'-' ∷ decimal (suc n)

-- What %d prints of an int is read back.
pub atoi-print_int : (z : ℤ) → IsInt64 z → atoi (print_int z) ≡ some z
unfolding atoi print_int
atoi-print_int (pos n) h =
    let (c, s, e, d) = decimal_first n in
    ap atoi e
    ∙ (atoi_without_sign c s d
        ∙ (ap (λ t. positive (unsigned t)) (sym e)
            ∙ (ap positive (unsigned-decimal n) ∙ ground arith)))
atoi-print_int (negsuc n) h = ap negative (unsigned-decimal (suc n)) ∙ ground arith
