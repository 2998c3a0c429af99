-- ===== src/Base/Text/Laws.antt =====
-- Laws of the functions on byte strings.
use mathlib.Core.Path.{◌≡◌, refl}
use mathlib.Core.Bool.{true, false}
use mathlib.Core.List.{[], ◌∷◌, ◌++◌}
use native.Mathlib.Omega.{arith}
use cute_pcap_mcp.Base.Text.{Bytes, has_prefix, trim_prefix, eq_bytes, eq_bytes_iff, lt_bytes}

pub has_prefix-append : (p s : Bytes) → has_prefix (p ++ s) p ≡ true
unfolding has_prefix
has_prefix-append [] s = refl
has_prefix-append (x ∷ p) s = ground (arith, has_prefix-append p s)

pub trim_prefix-append : (p s : Bytes) → trim_prefix (p ++ s) p ≡ s
unfolding trim_prefix
trim_prefix-append [] s = refl
trim_prefix-append (x ∷ p) s = ground (arith, has_prefix-append p s, trim_prefix-append p s)

pub eq_bytes_self : (a : Bytes) → eq_bytes a a ≡ true
eq_bytes_self a = (eq_bytes_iff a a).1 refl

pub lt_bytes_irrefl : (a : Bytes) → lt_bytes a a ≡ false
unfolding lt_bytes
lt_bytes_irrefl [] = refl
lt_bytes_irrefl (x ∷ a) = ground (arith, lt_bytes_irrefl a)

pub lt_bytes_trans :
    (a b c : Bytes) → lt_bytes a b ≡ true → lt_bytes b c ≡ true → lt_bytes a c ≡ true
unfolding lt_bytes
lt_bytes_trans [] (y ∷ b) (z ∷ c) h k = refl
lt_bytes_trans (x ∷ a) (y ∷ b) (z ∷ c) h k = ground (arith, lt_bytes_trans a b c)
lt_bytes_trans [] [] c h k = cc
lt_bytes_trans [] (y ∷ b) [] h k = cc
lt_bytes_trans (x ∷ a) [] c h k = cc
lt_bytes_trans (x ∷ a) (y ∷ b) [] h k = cc

-- Two byte strings are equal, or one comes first.
pub lt_bytes_total : (a b : Bytes) → lt_bytes a b ≡ false → lt_bytes b a ≡ false → a ≡ b
unfolding lt_bytes
lt_bytes_total [] [] h k = refl
lt_bytes_total [] (y ∷ b) h k = cc
lt_bytes_total (x ∷ a) [] h k = cc
lt_bytes_total (x ∷ a) (y ∷ b) h k = ground (arith, lt_bytes_total a b)

pub lt_bytes_asym : (a b : Bytes) → lt_bytes a b ≡ true → lt_bytes b a ≡ false
unfolding lt_bytes
lt_bytes_asym [] [] h = cc
lt_bytes_asym [] (y ∷ b) h = refl
lt_bytes_asym (x ∷ a) [] h = cc
lt_bytes_asym (x ∷ a) (y ∷ b) h = ground (arith, lt_bytes_asym a b)
