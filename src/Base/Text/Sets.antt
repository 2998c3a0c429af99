-- ===== src/Base/Text/Sets.antt =====
-- Sets of strings as lists: sorting keeps the members and makes different ones ascend.
use mathlib.Core.Path.{◌≡◌, refl, sym, ap, ◌∙◌}
use mathlib.Core.Logic.{◌≢◌, inl, inr}
use mathlib.Core.Bool.{true, false, ◌||◌}
use mathlib.Core.List.{List, [], ◌∷◌, ◌++◌}
use native.Mathlib.Omega.{arith}
use cute_pcap_mcp.Base.Tests.{if◌then◌else◌, Bool-cases}
use cute_pcap_mcp.Base.Lists.{All, All-append}
use cute_pcap_mcp.Base.Sort.{sort, insert, insert-All, sort-All}
use cute_pcap_mcp.Base.Text.{Bytes, eq_bytes, eq_bytes_iff, lt_bytes, mentions}
use cute_pcap_mcp.Base.Text.Laws.{lt_bytes_trans, lt_bytes_total}

abbrev pub IsBefore : Bytes → Bytes → Type 0
IsBefore a b = lt_bytes a b ≡ true

abbrev pub IsAscending : List Bytes → Type 0
IsAscending [] = Unit
IsAscending (k ∷ ks) = All (IsBefore k) ks × IsAscending ks

abbrev pub HasNoRepeat : List Bytes → Type 0
HasNoRepeat [] = Unit
HasNoRepeat (k ∷ ks) = All (λ j. j ≢ k) ks × HasNoRepeat ks

pub mentions-append :
    (k j : Bytes) (ks : List Bytes) → mentions k (ks ++ j ∷ []) ≡ (mentions k ks || eq_bytes j k)
unfolding mentions
mentions-append k j [] = ground arith
mentions-append k j (i ∷ ks) = ground (arith, mentions-append k j ks)

not_mentioned : (k : Bytes) (ks : List Bytes) → mentions k ks ≡ false → All (λ j. j ≢ k) ks
unfolding mentions
not_mentioned k [] h = tt
not_mentioned k (j ∷ ks) h =
    (λ e. ground (arith, eq_bytes_iff j k), not_mentioned k ks (ground arith))

HasNoRepeat-append :
    (k : Bytes) (ks : List Bytes)
    → All (λ j. j ≢ k) ks
    → HasNoRepeat ks
    → HasNoRepeat (ks ++ k ∷ [])
HasNoRepeat-append k [] a h = (tt, tt)
HasNoRepeat-append k (j ∷ ks) (p, a) (b, h) =
    (All-append (λ i. i ≢ j) ks (k ∷ []) b (λ e. p (sym e), tt), HasNoRepeat-append k ks a h)

-- A key is added where it is not there yet.
abbrev pub add_key : Bytes → List Bytes → List Bytes
add_key k ks = if mentions k ks then ks else ks ++ k ∷ []

pub add_key-HasNoRepeat :
    (k : Bytes) (ks : List Bytes) → HasNoRepeat ks → HasNoRepeat (add_key k ks)
add_key-HasNoRepeat k ks h = elim (Bool-cases (mentions k ks)) [
  | inl e ↦ rw e h
  | inr e ↦ rw e (HasNoRepeat-append k ks (not_mentioned k ks e) h)
]

pub mentions-add_key :
    (k j : Bytes) (ks : List Bytes) → mentions k (add_key j ks) ≡ (mentions k ks || eq_bytes j k)
mentions-add_key k j ks = elim (Bool-cases (mentions j ks)) [
  | inl e ↦ rw e (ground (arith, eq_bytes_iff j k))
  | inr e ↦ rw e (mentions-append k j ks)
]

mentions-insert :
    (k j : Bytes) (ks : List Bytes)
    → mentions k (insert lt_bytes j ks) ≡ (eq_bytes j k || mentions k ks)
unfolding insert mentions
mentions-insert k j [] = refl
mentions-insert k j (i ∷ ks) = ground (arith, mentions-insert k j ks)

pub mentions-sort : (k : Bytes) (ks : List Bytes) → mentions k (sort lt_bytes ks) ≡ mentions k ks
unfolding sort mentions
mentions-sort k [] = refl
mentions-sort k (j ∷ ks) =
    mentions-insert k j (sort lt_bytes ks) ∙ ap (λ b. eq_bytes j k || b) (mentions-sort k ks)

IsBefore-trans :
    (a b : Bytes) (ks : List Bytes) → IsBefore a b → All (IsBefore b) ks → All (IsBefore a) ks
IsBefore-trans a b [] h k = tt
IsBefore-trans a b (c ∷ ks) h (p, k) = (lt_bytes_trans a b c h p, IsBefore-trans a b ks h k)

first_IsBefore : (a b : Bytes) → b ≢ a → lt_bytes b a ≡ false → IsBefore a b
first_IsBefore a b h k = elim (Bool-cases (lt_bytes a b)) [
  | inl e ↦ e
  | inr e ↦ absurd (h (lt_bytes_total b a k e))
]

insert-IsAscending :
    (k : Bytes) (ks : List Bytes)
    → All (λ j. j ≢ k) ks
    → IsAscending ks
    → IsAscending (insert lt_bytes k ks)
unfolding insert
insert-IsAscending k [] n h = (tt, tt)
insert-IsAscending k (j ∷ ks) (p, n) (a, h) = elim (Bool-cases (lt_bytes j k)) [
  | inl e ↦ rw e (insert-All lt_bytes (IsBefore j) k ks e a, insert-IsAscending k ks n h)
  | inr e ↦ let b = first_IsBefore k j p e in rw e ((b, IsBefore-trans k j ks b a), (a, h))
]

pub sort-IsAscending : (ks : List Bytes) → HasNoRepeat ks → IsAscending (sort lt_bytes ks)
unfolding sort
sort-IsAscending [] h = tt
sort-IsAscending (k ∷ ks) (n, h) =
    insert-IsAscending k (sort lt_bytes ks) (sort-All lt_bytes (λ j. j ≢ k) ks n)
      (sort-IsAscending ks h)
