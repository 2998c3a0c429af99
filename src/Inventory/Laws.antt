-- ===== src/Inventory/Laws.antt =====
-- The hash of a file under a budget, and what the order of the cursor means for the entries beside a
-- directory.
use cute_pcap_mcp.Base.{
  length-append, ℕ, ◌+◌, ◌<◌, ◌≤◌, Bool, true, false, [], ◌∷◌, ◌++◌, some, ◌≡◌, refl, ap, ◌∙◌, inl,
  inr, leb, if◌then◌else◌, arith, Bool-cases, length,
}
use cute_pcap_mcp.Base.Text.{Bytes, lt_bytes}
use mathlib.Core.Path.{subst}
use mathlib.Core.List.{append-nil, append_assoc}
use cute_pcap_mcp.Base.Text.Laws.{lt_bytes_asym}
use cute_pcap_mcp.Base.Int.{pos, le_ℤ, add64, half_word}
use cute_pcap_mcp.Inventory.{
  Cursor, skipped, skip_entry, Answers, bytes, bytes_eof, bytes_error, canceled, hashed,
  over_budget, HashRun, run_, hash_loop, hash_file,
}

lt_bytes-append : (d s t : Bytes) (c e : ℕ) → c < e → lt_bytes (d ++ c ∷ s) (d ++ e ∷ t) ≡ true
unfolding lt_bytes
lt_bytes-append [] s t c e h = ground (arith, h)
lt_bytes-append (x ∷ d) s t c e h = ground (arith, lt_bytes-append d s t c e h)

lt_bytes-longer : (d s : Bytes) (c : ℕ) → lt_bytes d (d ++ c ∷ s) ≡ true
unfolding lt_bytes
lt_bytes-longer [] s c = refl
lt_bytes-longer (x ∷ d) s c = ground (arith, lt_bytes-longer d s c)

abbrev pub at : ℕ → Bytes → Cursor
at root rel = record { root_index = root; relative_path = rel }

-- A file whose path goes on after that of a directory with a byte below the slash comes after the
-- directory by name, yet a page whose cursor is inside the directory skips it.
pub skip_entry-sibling :
    (root : ℕ) (d s t : Bytes) (c : ℕ)
    → c < b'/'
    → (lt_bytes d (d ++ c ∷ s) ≡ true)
      × (skip_entry root (d ++ c ∷ s) false (some (at root (d ++ b'/' ∷ t))) ≡ skipped)
unfolding skip_entry
skip_entry-sibling root d s t c h =
    let less = lt_bytes-append d s t c b'/' h in
    let back = lt_bytes_asym (d ++ c ∷ s) (d ++ b'/' ∷ t) less in
    (lt_bytes-longer d s c, ground (arith, back))

abbrev pub content : Answers → Bytes
content (bytes c rest) = c ++ content rest
content (bytes_eof c) = c
content (bytes_error c) = c
content canceled = []

abbrev pub reaches_eof : Answers → Bool
reaches_eof (bytes c rest) = reaches_eof rest
reaches_eof (bytes_eof c) = true
reaches_eof (bytes_error c) = false
reaches_eof canceled = false

-- A call of Read returns no more bytes than it asks for, after n bytes that were read.
abbrev pub Fits : ℕ → ℕ → Bytes → Type 0
Fits max n c = (n < max → n + length c ≤ max) × (max ≤ n → length c ≤ 1)

abbrev pub Honest : ℕ → ℕ → Answers → Type 0
Honest max n (bytes c rest) = Fits max n c × Honest max (n + length c) rest
Honest max n (bytes_eof c) = Fits max n c
Honest max n (bytes_error c) = Fits max n c
Honest max n canceled = Unit

add64-pos : (a b : ℕ) → a + b < half_word → add64 (pos a) (pos b) ≡ pos (a + b)
unfolding add64
add64-pos a b h = ground (arith, h)

abbrev pub outcome : ℕ → ℕ → Bytes → Bytes → HashRun
outcome max n seen rest =
    if leb (n + length rest) max
    then run_ (pos (n + length rest)) (hashed (seen ++ rest))
    else run_ (pos max) over_budget

-- A read without bytes changes nothing.
hash_loop-no_bytes :
    (max n : ℕ) (seen : Bytes) (a : Answers)
    → n < half_word
    → hash_loop (pos max) (pos n) seen (bytes [] a) ≡ hash_loop (pos max) (pos n) seen a
unfolding hash_loop
hash_loop-no_bytes max n seen a h =
    let same : add64 (pos n) (pos 0) ≡ pos n =
      add64-pos n 0 (omega (arith, h)) ∙ ap pos (omega arith) in
    elim (Bool-cases (le_ℤ (pos max) (pos n))) [
      | inl p ↦ rw p refl
      | inr p ↦ rw (p, same, append-nil seen) refl
    ]

outcome-append :
    (max n : ℕ) (seen c r : Bytes)
    → outcome max (n + length c) (seen ++ c) r ≡ outcome max n seen (c ++ r)
outcome-append max n seen c r =
    let count : n + length c + length r ≡ n + length (c ++ r) = omega (arith, length-append c r) in
    rw (count, append_assoc seen c r) refl

outcome-full :
    (max n x : ℕ) (seen c r : Bytes)
    → n ≡ max
    → run_ (pos n) over_budget ≡ outcome max n seen ((x ∷ c) ++ r)
outcome-full max n x seen c r h = ground (arith, h)

hash_loop-eof :
    (max n : ℕ) (seen : Bytes) (a : Answers)
    → max < half_word
    → n ≤ max
    → Honest max n a
    → reaches_eof a ≡ true
    → hash_loop (pos max) (pos n) seen a ≡ outcome max n seen (content a)
unfolding hash_loop
hash_loop-eof max n seen (bytes [] rest) hm hn h e =
    let none_read : n + 0 ≡ n = omega arith in
    let at_n : Honest max n rest = subst (λ k. Honest max k rest) none_read h.1 in
    hash_loop-no_bytes max n seen rest (omega (arith, hm, hn))
    ∙ hash_loop-eof max n seen rest hm hn at_n e
hash_loop-eof max n seen (bytes (x ∷ c) rest) hm hn h e =
    elim (Bool-cases (le_ℤ (pos max) (pos n))) [
      | inl p ↦ rw p (outcome-full max n x seen c (content rest) (ground (arith, p, hn)))
      | inr p ↦
          let fits : n + length (x ∷ c) ≤ max = h.0.0 (ground (arith, p)) in
          rw (p, add64-pos n (length (x ∷ c)) (omega (arith, fits, hm)))
            (hash_loop-eof max (n + length (x ∷ c)) (seen ++ x ∷ c) rest hm fits h.1 e
              ∙ outcome-append max n seen (x ∷ c) (content rest))
    ]
hash_loop-eof max n seen (bytes_eof []) hm hn h e =
    let same : add64 (pos n) (pos 0) ≡ pos (n + 0) = add64-pos n 0 (omega (arith, hm, hn)) in
    rw (append-nil seen) (ground (arith, hn, same))
hash_loop-eof max n seen (bytes_eof (x ∷ c)) hm hn h e =
    elim (Bool-cases (le_ℤ (pos max) (pos n))) [
      | inl p ↦ rw p (ground (arith, p, hn))
      | inr p ↦
          let fits : n + length (x ∷ c) ≤ max = h.0 (ground (arith, p)) in
          rw (p, add64-pos n (length (x ∷ c)) (omega (arith, fits, hm))) (ground (arith, fits))
    ]
hash_loop-eof max n seen (bytes_error c) hm hn h e = cc
hash_loop-eof max n seen canceled hm hn h e = cc

-- If the reads of a file reach its end, each with no more bytes than asked for, its hash is that of the
-- whole content when the content is within the budget, and the budget is reported as reached otherwise;
-- the bytes that count are those read, never more than the budget.
pub hash_file-eof :
    (max : ℕ) (a : Answers)
    → max < half_word
    → Honest max 0 a
    → reaches_eof a ≡ true
    → hash_file (pos max) a ≡ outcome max 0 [] (content a)
unfolding hash_file
hash_file-eof max a hm h e = hash_loop-eof max 0 [] a hm (omega arith) h e
