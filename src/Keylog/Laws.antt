-- ===== src/Keylog/Laws.antt =====
-- When a keylog is handed to the analyzers.
use cute_pcap_mcp.Base.{
  ℕ, suc, ◌+◌, ◌%◌, ◌<◌, ◌≤◌, true, false, ◌||◌, List, [], ◌∷◌, some, ◌≡◌, refl, ap, ◌↔◌, ◌⊎◌, inl,
  inr, leb, ◌==◌, if◌then◌else◌, All, arith, Bool-cases, some_eq, length, all,
}
use mathlib.Core.Option.{some}
use cute_pcap_mcp.Base.Text.{Bytes, codes, eq_bytes, eq_bytes_iff}
use cute_pcap_mcp.Base.Text.Lines.{fields}
use cute_pcap_mcp.Keylog.{
  no_lines, Summary, is_hex, is_even_hex, is_recognized_label, is_secret, is_usable_line,
  max_line_bytes, is_skipped_line, count_line, read_line, tidy, scan,
}

-- Three fields: a known label, hexadecimal digits for the random of the client and a secret of 32 bytes or
-- more; the random has 32 bytes unless the label is RSA.
pub record IsSecret (line : Bytes) : Type 0 where
  pub label : Bytes
  pub client_random : Bytes
  pub secret : Bytes
  pub parts : fields line ≡ label ∷ client_random ∷ secret ∷ []
  pub known : is_recognized_label label ≡ true
  pub random_hex : all is_hex client_random ≡ true
  pub random_even : length client_random % 2 ≡ 0
  pub secret_hex : all is_hex secret ≡ true
  pub secret_long : 64 ≤ length secret
  pub random_long : (label ≡ codes "RSA") ⊎ (length client_random ≡ 64)

is_even_hex-true : (v : Bytes) → is_even_hex v ≡ true → (all is_hex v ≡ true) × (length v % 2 ≡ 0)
unfolding is_even_hex
is_even_hex-true v h = ground arith

random_long-of :
    (label r : Bytes)
    → (eq_bytes label (codes "RSA") || length r == 64) ≡ true
    → (label ≡ codes "RSA") ⊎ (length r ≡ 64)
random_long-of label r h = elim (Bool-cases (eq_bytes label (codes "RSA"))) [
  | inl p ↦ inl ((eq_bytes_iff label (codes "RSA")).0 p)
  | inr p ↦ inr (ground (arith, p))
]

secret_parts :
    (l r s : Bytes)
    → is_secret (l ∷ r ∷ s ∷ []) ≡ true
    → (is_recognized_label l ≡ true)
      × (is_even_hex r ≡ true)
      × (is_even_hex s ≡ true)
      × (64 ≤ length s)
      × ((eq_bytes l (codes "RSA") || length r == 64) ≡ true)
unfolding is_secret
secret_parts l r s h = ground arith

is_secret-IsSecret :
    (line : Bytes) (parts : List Bytes)
    → fields line ≡ parts
    → is_secret parts ≡ true
    → IsSecret line
unfolding is_secret
is_secret-IsSecret line [] e h = absurd (cc)
is_secret-IsSecret line (l ∷ []) e h = absurd (cc)
is_secret-IsSecret line (l ∷ r ∷ []) e h = absurd (cc)
is_secret-IsSecret line (l ∷ r ∷ s ∷ []) e h =
    let p = secret_parts l r s h in
    record {
      label = l;
      client_random = r;
      secret = s;
      parts = e;
      known = p.0;
      random_hex = (is_even_hex-true r p.1).0;
      random_even = (is_even_hex-true r p.1).1;
      secret_hex = (is_even_hex-true s p.2).0;
      secret_long = p.3;
      random_long = random_long-of l r p.4;
    }
is_secret-IsSecret line (l ∷ r ∷ s ∷ x ∷ rest) e h = absurd (cc)

is_usable_line-IsSecret : (line : Bytes) → is_usable_line line ≡ true → IsSecret line
unfolding is_usable_line
is_usable_line-IsSecret line h = is_secret-IsSecret line (fields line) refl h

abbrev pub Short : Bytes → Type 0
Short raw = length raw < max_line_bytes

-- Some line is no comment and holds a secret.
abbrev pub HasSecret : List Bytes → Type 0
HasSecret [] = ⊥
HasSecret (raw ∷ rest) =
    ((is_skipped_line (tidy raw) ≡ false) × (is_usable_line (tidy raw) ≡ true)) ⊎ HasSecret rest

-- The sum of the lines that are counted.
abbrev usable_count : List Bytes → ℕ
usable_count [] = 0
usable_count (raw ∷ rest) =
    let more = usable_count rest in
    if is_skipped_line (tidy raw)
    then more
    else if is_usable_line (tidy raw)
    then suc more
    else more

scan-Short : (s t : Summary) (raws : List Bytes) → scan s raws ≡ some t → All Short raws
unfolding scan
scan-Short s t [] e = tt
scan-Short s t (raw ∷ rest) e = elim (Bool-cases (leb max_line_bytes (length raw))) [
  | inl p ↦ absurd (cc (rw p at e))
  | inr p ↦ (ground (arith, p), scan-Short (read_line (tidy raw) s) t rest (rw p at e))
]

count_line-usable :
    (line : Bytes) (s : Summary)
    → (count_line line s).usable_secret_lines
      ≡ (if is_usable_line line then suc s.usable_secret_lines else s.usable_secret_lines)
count_line-usable line s = refl

scan-usable :
    (s t : Summary) (raws : List Bytes)
    → scan s raws ≡ some t
    → t.usable_secret_lines ≡ s.usable_secret_lines + usable_count raws
unfolding scan
scan-usable s t [] e = omega (arith, ap (λ (u : Summary). u.usable_secret_lines) (some_eq e))
scan-usable s t (raw ∷ rest) e = elim (Bool-cases (leb max_line_bytes (length raw))) [
  | inl p ↦ absurd (cc (rw p at e))
  | inr p ↦
      let next = scan-usable (read_line (tidy raw) s) t rest (rw p at e) in
      elim (Bool-cases (is_skipped_line (tidy raw))) [
        | inl q ↦ rw q (rw q at next)
        | inr q ↦ elim (Bool-cases (is_usable_line (tidy raw))) [
          | inl u ↦ rw (q, u) (omega (arith, rw (q, u) at next))
          | inr u ↦ rw (q, u) (rw (q, u) at next)
        ]
      ]
]

usable_count-HasSecret : (raws : List Bytes) → 0 < usable_count raws → HasSecret raws
usable_count-HasSecret [] h = absurd (omega arith)
usable_count-HasSecret (raw ∷ rest) h = elim (Bool-cases (is_skipped_line (tidy raw))) [
  | inl q ↦ inr (usable_count-HasSecret rest (rw q at h))
  | inr q ↦ elim (Bool-cases (is_usable_line (tidy raw))) [
    | inl u ↦ inl (q, u)
    | inr u ↦ inr (usable_count-HasSecret rest (rw (q, u) at h))
  ]
]

HasSecret-usable_count : (raws : List Bytes) → HasSecret raws → 0 < usable_count raws
HasSecret-usable_count [] h = absurd h
HasSecret-usable_count (raw ∷ rest) (inl (q, u)) = rw (q, u) (omega arith)
HasSecret-usable_count (raw ∷ rest) (inr h) =
    let more = HasSecret-usable_count rest h in
    elim (Bool-cases (is_skipped_line (tidy raw))) [
      | inl q ↦ rw q more
      | inr q ↦ elim (Bool-cases (is_usable_line (tidy raw))) [
        | inl u ↦ rw (q, u) (omega arith)
        | inr u ↦ rw (q, u) more
      ]
    ]

Short-scan :
    (s : Summary) (raws : List Bytes) → All Short raws → (t : Summary) × (scan s raws ≡ some t)
unfolding scan
Short-scan s [] h = (s, refl)
Short-scan s (raw ∷ rest) (h, hs) =
    let (t, e) = Short-scan (read_line (tidy raw) s) rest hs in
    let fits : leb max_line_bytes (length raw) ≡ false = ground (arith, h) in (t, rw fits e)

-- The file is accepted exactly if its lines fit in the buffer and one of them holds a secret.
pub scan_iff :
    (raws : List Bytes)
    → ((t : Summary) × (scan no_lines raws ≡ some t) × (0 < t.usable_secret_lines))
      ↔ (All Short raws × HasSecret raws)
scan_iff raws = (
  λ (t, e, p). (
    scan-Short no_lines t raws e,
    usable_count-HasSecret raws (omega (arith, scan-usable no_lines t raws e)),
  ),
  λ (h, k).
      let (t, e) = Short-scan no_lines raws h in
      (t, e, omega (arith, scan-usable no_lines t raws e, HasSecret-usable_count raws k)),
)
