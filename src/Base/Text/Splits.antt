-- ===== src/Base/Text/Splits.antt =====
-- A text is cut in one way at a byte that one side does not hold.
use Prim.Native.Nat.{ℕ}
use mathlib.Core.Path.{◌≡◌, sym, ap, ◌∙◌}
use mathlib.Core.Logic.{◌≢◌, inl, inr}
use mathlib.Core.Bool.{Bool, true, not}
use cute_pcap_mcp.Base.Tests.{◌==◌, Bool-cases}
use mathlib.Core.List.{
  [], ◌∷◌, ◌++◌, reverse, reverse-append, reverse-cons, reverse-reverse, append_assoc,
}
use native.Mathlib.Omega.{arith}
use cute_pcap_mcp.Base.Lists.{all, All, All-append}
use cute_pcap_mcp.Base.Text.{Bool, true, Bytes}

abbrev pub Lacks : ℕ → Bytes → Type 0
Lacks c s = All (λ b. b ≢ c) s

-- A text is tested for a byte.
abbrev pub lacks : ℕ → Bytes → Bool
lacks c s = all (λ b. not (b == c)) s

pub lacks-Lacks : (c : ℕ) (s : Bytes) → lacks c s ≡ true → Lacks c s
lacks-Lacks c [] h = tt
lacks-Lacks c (b ∷ s) h = elim (Bool-cases (b == c)) [
  | inl p ↦ absurd (ground (arith, h, p))
  | inr p ↦ (ground (arith, p), lacks-Lacks c s (ground (arith, h, p)))
]

-- The byte is cut at its first place.
pub first_split :
    (c : ℕ) (xs ys r s : Bytes)
    → Lacks c xs
    → Lacks c ys
    → xs ++ c ∷ r ≡ ys ++ c ∷ s
    → (xs ≡ ys) × (r ≡ s)
first_split c [] [] r s h k e = ground arith
first_split c [] (y ∷ ys) r s h k e = ground arith
first_split c (x ∷ xs) [] r s h k e = ground arith
first_split c (x ∷ xs) (y ∷ ys) r s h k e =
    let (p, q) = first_split c xs ys r s h.1 k.1 (cc) in (ground arith, q)

Lacks-reverse : (c : ℕ) (s : Bytes) → Lacks c s → Lacks c (reverse s)
Lacks-reverse c [] h = tt
Lacks-reverse c (b ∷ s) (p, h) =
    rw (reverse-append (b ∷ []) s)
      (All-append (λ x. x ≢ c) (reverse s) (b ∷ []) (Lacks-reverse c s h) (p, tt))

reverse-split : (c : ℕ) (xs ys : Bytes) → reverse (xs ++ c ∷ ys) ≡ reverse ys ++ c ∷ reverse xs
reverse-split c xs ys = simp (reverse-append, reverse-cons, append_assoc)

reverse_injective : {xs ys : Bytes} → reverse xs ≡ reverse ys → xs ≡ ys
reverse_injective {xs} {ys} e = sym (reverse-reverse xs) ∙ ap reverse e ∙ reverse-reverse ys

-- The byte is cut at its last place.
pub last_split :
    (c : ℕ) (xs ys r s : Bytes)
    → Lacks c r
    → Lacks c s
    → xs ++ c ∷ r ≡ ys ++ c ∷ s
    → (xs ≡ ys) × (r ≡ s)
last_split c xs ys r s h k e =
    let (p, q) =
      first_split c (reverse r) (reverse s) (reverse xs) (reverse ys) (Lacks-reverse c r h)
        (Lacks-reverse c s k) (sym (reverse-split c xs r) ∙ ap reverse e ∙ reverse-split c ys s) in
    (reverse_injective q, reverse_injective p)
