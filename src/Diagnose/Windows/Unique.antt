-- ===== src/Diagnose/Windows/Unique.antt =====
-- The packet numbers of a symptom: `uniqueInts` and `packetNumbers`.
use mathlib.Core.Path.{subst}
use cute_pcap_mcp.Base.{
  Bool, true, false, ◌&&◌, ◌||◌, List, [], ◌∷◌, ◌≡◌, refl, ◌∙◌, inl, inr, All, arith, Bool-cases,
  any,
}
use cute_pcap_mcp.Base.Int.{ℤ, pos, lt_ℤ, eq_ℤ, eq_ℤ_iff}
use cute_pcap_mcp.Base.Sort.{sort, IsSorted, IsWeakOrder, sort-IsSorted, any-sort}
use cute_pcap_mcp.Diagnose.{Packet}
use cute_pcap_mcp.Diagnose.Windows.{
  unique_after, unique_ints, unique_sorted, positive_numbers, packet_numbers,
}

abbrev pub IsAbove : ℤ → List ℤ → Type 0
IsAbove n ns = All (λ m. lt_ℤ n m ≡ true) ns

abbrev pub IsStrict : List ℤ → Type 0
IsStrict [] = Unit
IsStrict (n ∷ ns) = IsAbove n ns × IsStrict ns

abbrev pub member : ℤ → List ℤ → Bool
member n ns = any (λ m. eq_ℤ m n) ns

pub lt_ℤ-IsWeakOrder : IsWeakOrder lt_ℤ
lt_ℤ-IsWeakOrder = record { asym = λ a b h. ground arith; trans = λ a b c h k. ground arith }

lt_ℤ_trans : (a b c : ℤ) → lt_ℤ a b ≡ true → lt_ℤ b c ≡ true → lt_ℤ a c ≡ true
lt_ℤ_trans a b c h k = ground arith

lift_IsAbove : (a b : ℤ) (ns : List ℤ) → lt_ℤ a b ≡ true → IsAbove b ns → IsAbove a ns
lift_IsAbove a b [] h k = tt
lift_IsAbove a b (n ∷ ns) h (l, k) = (lt_ℤ_trans a b n h l, lift_IsAbove a b ns h k)

lt_of_differ : (a b : ℤ) → lt_ℤ b a ≡ false → eq_ℤ b a ≡ false → lt_ℤ a b ≡ true
lt_of_differ a b h k = ground arith

unique_after-IsStrict :
    (last : ℤ) (vs : List ℤ)
    → IsSorted lt_ℤ (last ∷ vs)
    → IsAbove last (unique_after last vs) × IsStrict (unique_after last vs)
unfolding unique_after
unique_after-IsStrict last [] h = (tt, tt)
unique_after-IsStrict last (v ∷ vs) ((a, more), h) =
    let (x, y) = unique_after-IsStrict v vs h in
    elim (Bool-cases (eq_ℤ v last)) [
      | inl e ↦
          let same = (eq_ℤ_iff v last).0 e in
          rw e (subst (λ l. IsAbove l (unique_after v vs)) same x, y)
      | inr e ↦
          let less = lt_of_differ last v a e in
          rw e ((less, lift_IsAbove last v (unique_after v vs) less x), (x, y))
    ]

pub unique_ints-IsStrict : (vs : List ℤ) → IsStrict (unique_ints vs)
unfolding unique_ints
unique_ints-IsStrict vs = go (sort lt_ℤ vs) (sort-IsSorted lt_ℤ-IsWeakOrder vs)
  where
    go : (ws : List ℤ) → IsSorted lt_ℤ ws → IsStrict (unique_sorted ws)
    go [] h = tt
    go (w ∷ ws) h = unique_after-IsStrict w ws h

or_repeat : (a b : Bool) → (a || b) ≡ (a || (a || b))
or_repeat true b = refl
or_repeat false b = refl

unique_after_repeat : (v : ℤ) (vs : List ℤ) → unique_after v (v ∷ vs) ≡ unique_after v vs
unfolding unique_after
unique_after_repeat v vs = rw ((eq_ℤ_iff v v).1 refl) refl

member-unique_after :
    (n last : ℤ) (vs : List ℤ) → member n (last ∷ unique_after last vs) ≡ member n (last ∷ vs)
unfolding unique_after
member-unique_after n last [] = refl
member-unique_after n last (v ∷ vs) = elim (Bool-cases (eq_ℤ v last)) [
  | inl e ↦
      subst (λ l. member n (l ∷ unique_after l (v ∷ vs)) ≡ member n (l ∷ v ∷ vs))
        ((eq_ℤ_iff v last).0 e)
        (rw (unique_after_repeat v vs)
          (member-unique_after n v vs ∙ or_repeat (eq_ℤ v n) (any (λ m. eq_ℤ m n) vs)))
  | inr e ↦ rw (e, member-unique_after n v vs) refl
]

pub member-unique_ints : (n : ℤ) (vs : List ℤ) → member n (unique_ints vs) ≡ member n vs
unfolding unique_ints
member-unique_ints n vs = go (sort lt_ℤ vs) ∙ any-sort lt_ℤ (λ m. eq_ℤ m n) vs
  where
    go : (ws : List ℤ) → member n (unique_sorted ws) ≡ member n ws
    go [] = refl
    go (w ∷ ws) = member-unique_after n w ws

-- A packet with the number `n`, which is positive.
abbrev pub numbered : ℤ → Packet → Bool
numbered n p = lt_ℤ (pos 0) p.number && eq_ℤ p.number n

member-positive_numbers :
    (n : ℤ) (ps : List Packet) → member n (positive_numbers ps) ≡ any (numbered n) ps
unfolding positive_numbers
member-positive_numbers n [] = refl
member-positive_numbers n (p ∷ ps) = ground (arith, member-positive_numbers n ps)

pub record AreNumbers (ps : List Packet) (ns : List ℤ) : Type 0 where
  pub strict : IsStrict ns
  pub members : (n : ℤ) → member n ns ≡ any (numbered n) ps

-- The packet numbers strictly ascend and are exactly the positive numbers of the packets.
pub packet_numbers-AreNumbers : (ps : List Packet) → AreNumbers ps (packet_numbers ps)
unfolding packet_numbers
packet_numbers-AreNumbers ps = record {
  strict = unique_ints-IsStrict (positive_numbers ps);
  members = λ n. member-unique_ints n (positive_numbers ps) ∙ member-positive_numbers n ps;
}
