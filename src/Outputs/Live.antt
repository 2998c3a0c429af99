-- ===== src/Outputs/Live.antt =====
-- A run finds a free name among the 1000 that it tries, if there are fewer directories.
use cute_pcap_mcp.Base.{
  ℕ, zero, suc, ◌+◌, ◌<◌, ◌≤◌, true, List, [], ◌∷◌, ◌++◌, Option, none, ◌≡◌, ◌≢◌, refl, sym, ap,
  ◌∙◌, ◌⊎◌, inl, inr, if◌then◌else◌, arith, Bool-cases, length,
}
use mathlib.Core.Option.{none}
use mathlib.Core.Path.{subst}
use cute_pcap_mcp.Base.Text.{Bytes, eq_bytes, eq_bytes_iff}
use cute_pcap_mcp.Base.Text.Decimal.{decimal, decimal_injective}
use cute_pcap_mcp.Base.Text.Atoi.{print_int}
use cute_pcap_mcp.Errors.{ok}
use cute_pcap_mcp.Outputs.{
  Moment, Disk, capture_id_for, is_dir, name_of, add_dir, try_names, max_attempts, make_unique_dir,
}
use cute_pcap_mcp.Outputs.Laws.{same_or_above, try_names-taken, try_names-created}

without_one : Bytes → List Bytes → List Bytes
without_one x [] = []
without_one x (y ∷ ys) = let rest = without_one x ys in if eq_bytes x y then ys else y ∷ rest

length-without_one :
    (x : Bytes) (ys : List Bytes) → is_dir x ys ≡ true → suc (length (without_one x ys)) ≡ length ys
unfolding without_one is_dir
length-without_one x [] h = absurd (ground (arith, h))
length-without_one x (y ∷ ys) h = elim (Bool-cases (eq_bytes x y)) [
  | inl p ↦ rw (p) refl
  | inr p ↦ rw (p) (ap suc (length-without_one x ys (rw p at h)))
]

-- Another name stays.
is_dir-without_one :
    (x z : Bytes) (ys : List Bytes)
    → z ≢ x
    → is_dir z ys ≡ true
    → is_dir z (without_one x ys) ≡ true
unfolding without_one is_dir
is_dir-without_one x z [] n h = absurd (ground (arith, h))
is_dir-without_one x z (y ∷ ys) n h = elim (Bool-cases (eq_bytes x y)) [
  | inl p ↦ elim (Bool-cases (eq_bytes z y)) [
    | inl q ↦ absurd (n ((eq_bytes_iff z y).0 q ∙ sym ((eq_bytes_iff x y).0 p)))
    | inr q ↦ rw (p) (rw q at h)
  ]
  | inr p ↦ elim (Bool-cases (eq_bytes z y)) [
    | inl q ↦ rw (p, q) refl
    | inr q ↦ rw (p, q) (is_dir-without_one x z ys n (rw q at h))
  ]
]

above_not_same : (a i : ℕ) → suc a ≤ i → i ≢ a
above_not_same a i p e = ground (arith, p, e)

-- Different names that are all taken are no more than the directories.
pigeonhole :
    (f : ℕ → Bytes) (inj : (i j : ℕ) → f i ≡ f j → i ≡ j) (k a : ℕ) (dirs : List Bytes)
    → ((i : ℕ) → a ≤ i → i < a + k → is_dir (f i) dirs ≡ true)
    → k ≤ length dirs
pigeonhole f inj zero a dirs h = omega arith
pigeonhole f inj (suc k) a dirs h =
    let here = h a (omega arith) (omega arith) in
    let size = length-without_one (f a) dirs here in
    let rest = pigeonhole f inj k (suc a) (without_one (f a) dirs) (λ i p q.
      is_dir-without_one (f a) (f i) dirs (λ e. above_not_same a i p (inj i a e))
        (h i (omega (arith, p)) (omega (arith, q)))) in
    omega (arith, size, rest)

longer_not_same : (base : Bytes) (c : ℕ) (s : Bytes) → base ++ c ∷ s ≢ base
longer_not_same [] c s e = ground (arith, e)
longer_not_same (b ∷ base) c s e = longer_not_same base c s (ground (arith, e))

suffix_eq : (base : Bytes) (s t : Bytes) → base ++ s ≡ base ++ t → s ≡ t
suffix_eq [] s t e = e
suffix_eq (c ∷ base) s t e = suffix_eq base s t (ground (arith, e))

name_of_injective : (base : Bytes) (i j : ℕ) → name_of base i ≡ name_of base j → i ≡ j
unfolding name_of print_int
name_of_injective base zero zero e = refl
name_of_injective base zero (suc j) e = absurd (longer_not_same base b'-' (decimal (j + 2)) (sym e))
name_of_injective base (suc i) zero e = absurd (longer_not_same base b'-' (decimal (i + 2)) e)
name_of_injective base (suc i) (suc j) e =
    let tails = suffix_eq base (b'-' ∷ decimal (i + 2)) (b'-' ∷ decimal (j + 2)) e in
    let same = decimal_injective (i + 2) (j + 2) (ground (arith, tails)) in omega (arith, same)

too_many : (dirs : List Bytes) → max_attempts ≤ length dirs → length dirs < max_attempts → ⊥
too_many dirs h k = ground (arith, h, k)

module _ (refusal : Bytes → Option Bytes) (allowed : (name : Bytes) → refusal name ≡ none) where
  -- Either a directory is made, or each of the names is taken.
  try_names-cases :
      (left attempt : ℕ) (base : Bytes) (disk : Disk)
      → ((made : Bytes × Disk) × (try_names refusal left attempt base disk ≡ ok made))
        ⊎ ((i : ℕ) → attempt ≤ i → i < attempt + left → is_dir (name_of base i) disk.dirs ≡ true)
  try_names-cases zero attempt base disk = inr (λ i p q. absurd (ground (arith, p, q)))
  try_names-cases (suc left) attempt base disk =
      elim (Bool-cases (is_dir (name_of base attempt) disk.dirs)) [
        | inr e ↦ inl (
          (name_of base attempt, add_dir (name_of base attempt) disk),
          try_names-created refusal left attempt base disk e (allowed (name_of base attempt)),
        )
        | inl e ↦ elim (try_names-cases left (suc attempt) base disk) [
          | inl (made, h) ↦ inl (made, try_names-taken refusal left attempt base disk e ∙ h)
          | inr h ↦ inr (λ i p q. elim (same_or_above attempt i p) [
            | inl same ↦ subst (λ n. is_dir (name_of base n) disk.dirs ≡ true) same e
            | inr above ↦ h i above (omega (arith, q))
          ])
        ]
      ]

  -- On a disk with fewer than 1000 directories, where the system refuses no name that is free, a directory is
  -- made.
  pub make_unique_dir-live :
      (hash : Bytes) (now : Moment) (disk : Disk)
      → length disk.dirs < max_attempts
      → (made : Bytes × Disk) × (make_unique_dir refusal hash now disk ≡ ok made)
  unfolding make_unique_dir
  make_unique_dir-live hash now disk few =
      let base = capture_id_for hash now in
      elim (try_names-cases max_attempts 0 base disk) [
        | inl found ↦ found
        | inr h ↦ absurd (
            too_many disk.dirs
              (pigeonhole (name_of base) (name_of_injective base) max_attempts 0 disk.dirs h) few)
      ]
