-- ===== src/Command/Laws.antt =====
-- What a bounded buffer keeps, and which failures of an analyzer are tolerated.
use cute_pcap_mcp.Base.{
  ℕ, zero, suc, ◌-◌, true, List, [], ◌∷◌, ◌++◌, Option, none, some, ◌≡◌, refl, sym, ap, ◌∙◌, ◌↔◌,
  ◌⊎◌, inl, inr, leb, arith, Bool-cases, some_eq, length, take, length-append, length-take,
}
use mathlib.Core.Option.{none, some}
use mathlib.Core.List.{append-nil, append_assoc}
use cute_pcap_mcp.Base.Text.{Bytes}
use cute_pcap_mcp.Base.Int.{ℤ, pos_part}
use cute_pcap_mcp.Errors.{Err, Sentinel, is, err_analyzer_unavailable, err_analyzer_timeout}
use cute_pcap_mcp.Command.{
  run_process, ended, tolerate, Call, Ending, finished, exited, stopped, Process, Tolerant, write,
  write_all, captured, is_truncated_diagnostic, run_tolerant, max_stderr_bytes,
}

abbrev pub joined : List Bytes → Bytes
joined [] = []
joined (p ∷ ps) = p ++ joined ps

take-zero : (xs : Bytes) (n : ℕ) → n ≡ 0 → take n xs ≡ []
take-zero xs n e = rw e refl

take-nil : (n : ℕ) → take {A = ℕ} n [] ≡ []
take-nil zero = refl
take-nil (suc n) = refl

take-append : (n : ℕ) (xs ys : Bytes) → take n (xs ++ ys) ≡ take n xs ++ take (n - length xs) ys
take-append n [] ys =
    let same : n ≡ n - length {A = ℕ} [] = omega arith in rw (take-nil n) (ap (λ k. take k ys) same)
take-append zero (x ∷ xs) ys = sym (take-zero ys (0 - length (x ∷ xs)) (omega arith))
take-append (suc n) (x ∷ xs) ys =
    let less : suc n - suc (length xs) ≡ n - length xs = omega arith in
    ap (λ t. x ∷ t) (take-append n xs ys) ∙ ap (λ k. x ∷ take n xs ++ take k ys) (sym less)

write_lem :
    (limit : ℕ) (buffer p : Bytes) → write limit buffer p ≡ buffer ++ take (limit - length buffer) p
unfolding write
write_lem limit buffer p = elim (Bool-cases (leb limit (length buffer))) [
  | inl h ↦ rw (h, take-zero p (limit - length buffer) (ground (arith, h)), append-nil buffer) refl
  | inr h ↦ rw h refl
]

-- However the program writes, the buffer keeps the first bytes of all it writes, up to the limit.
write_all-take :
    (limit : ℕ) (buffer : Bytes) (ps : List Bytes)
    → write_all limit buffer ps ≡ buffer ++ take (limit - length buffer) (joined ps)
unfolding write_all
write_all-take limit buffer [] = rw (take-nil (limit - length buffer), append-nil buffer) refl
write_all-take limit buffer (p ∷ ps) =
    let k = limit - length buffer in
    let kept = buffer ++ take k p in
    let left : limit - length kept ≡ k - length p =
      omega (arith, length-append buffer (take k p), length-take k p) in
    rw (write_lem limit buffer p) (
      write_all-take limit kept ps
      ∙ ap (λ m. kept ++ take m (joined ps)) left
      ∙ append_assoc buffer (take k p) (take (k - length p) (joined ps))
      ∙ ap (λ t. buffer ++ t) (sym (take-append k p (joined ps))))

pub captured-take :
    (max_bytes : ℤ) (p : Process)
    → ((captured max_bytes p).stdout ≡ take (pos_part max_bytes) (joined p.stdout))
      × ((captured max_bytes p).stderr ≡ take max_stderr_bytes (joined p.stderr))
unfolding captured
captured-take max_bytes p =
    let all : (n : ℕ) → n - length {A = ℕ} [] ≡ n = λ n. omega arith in
    (
      write_all-take (pos_part max_bytes) [] p.stdout
          ∙ ap (λ n. take n (joined p.stdout)) (all (pos_part max_bytes)),
      write_all-take max_stderr_bytes [] p.stderr
          ∙ ap (λ n. take n (joined p.stderr)) (all max_stderr_bytes),
    )

-- The one failure that is tolerated: the program ended by itself with another status and complained of a
-- capture that is cut short.
abbrev pub Salvaged : (Call → Option Process) → ℤ → Call → Type 0
Salvaged program max_bytes c =
    (p : Process) × (program c ≡ some p)
    × (p.ending ≡ exited)
    × (is_truncated_diagnostic (captured max_bytes p).stderr ≡ true)

abbrev Finished : (Call → Option Process) → Call → Type 0
Finished program c = (p : Process) × (program c ≡ some p) × (p.ending ≡ finished)

abbrev Missing : (Call → Option Process) → Call → Type 0
Missing program c = program c ≡ none

abbrev Stopped : (Call → Option Process) → Call → Type 0
Stopped program c = (p : Process) × (program c ≡ some p) × (p.ending ≡ stopped)

abbrev HasError : Sentinel → Option Err → Type 0
HasError s none = ⊥
HasError s (some e) = is e s ≡ true

-- A failure keeps its kind unless it is salvaged.
pub record IsTolerated (program : Call → Option Process) (max_bytes : ℤ) (c : Call) (r : Tolerant)
    : Type 0 where
  pub truncated : (r.truncated ≡ true) ↔ Salvaged program max_bytes c
  pub succeeds : (r.error ≡ none) ↔ (Finished program c ⊎ Salvaged program max_bytes c)
  pub unavailable : Missing program c ↔ HasError err_analyzer_unavailable r.error
  pub timeout : Stopped program c ↔ HasError err_analyzer_timeout r.error

module _ (program : Call → Option Process) (timeout : Bytes) (max_bytes : ℤ) (c : Call) where
  same_process :
      {p q : Process} {e f : Ending}
      → program c ≡ some p
      → program c ≡ some q
      → p.ending ≡ e
      → q.ending ≡ f
      → e ≡ f
  same_process h k a b = sym a ∙ ap (λ (r : Process). r.ending) (some_eq (sym h ∙ k)) ∙ b

  ending-IsTolerated :
      (p : Process) (e : Ending)
      → program c ≡ some p
      → p.ending ≡ e
      → IsTolerated program max_bytes c
          (tolerate (captured max_bytes p) (ended c timeout (captured max_bytes p) e))
  unfolding is
  ending-IsTolerated p finished h k = record {
    truncated = (λ x. cc, λ (q, a, b, d). cc (same_process h a k b));
    succeeds = (λ x. inl (p, h, k), λ x. refl);
    unavailable = (λ x. cc, λ x. absurd x);
    timeout = (λ (q, a, b). cc (same_process h a k b), λ x. absurd x);
  }
  ending-IsTolerated p exited h k =
      elim (Bool-cases (is_truncated_diagnostic (captured max_bytes p).stderr)) [
        | inl d ↦ rw d (record {
          truncated = (λ x. (p, h, k, d), λ x. refl);
          succeeds = (λ x. inr (p, h, k, d), λ x. refl);
          unavailable = (λ x. cc, λ x. absurd x);
          timeout = (λ (q, a, b). cc (same_process h a k b), λ x. absurd x);
        })
        | inr d ↦ rw d (record {
          truncated = (λ x. cc, λ (q, a, b, t). cc (some_eq (sym h ∙ a)));
          succeeds = (
            λ x. cc,
            λ x. elim x [
              | inl (q, a, b) ↦ cc (same_process h a k b)
              | inr (q, a, b, t) ↦ cc (some_eq (sym h ∙ a))
            ],
          );
          unavailable = (λ x. cc, λ x. cc);
          timeout = (λ (q, a, b). cc (same_process h a k b), λ x. cc);
        })
      ]
  ending-IsTolerated p stopped h k = record {
    truncated = (λ x. cc, λ (q, a, b, t). cc (same_process h a k b));
    succeeds = (
      λ x. cc,
      λ x. elim x [
        | inl (q, a, b) ↦ cc (same_process h a k b)
        | inr (q, a, b, t) ↦ cc (same_process h a k b)
      ],
    );
    unavailable = (λ x. cc, λ x. cc);
    timeout = (λ x. refl, λ x. (p, h, k));
  }

  missing-IsTolerated :
      program c ≡ none
      → IsTolerated program max_bytes c
          (let r = run_process timeout max_bytes c none in tolerate r.output r.error)
  unfolding is
  missing-IsTolerated h = record {
    truncated = (λ x. cc, λ (q, a, b, t). cc);
    succeeds = (λ x. cc, λ x. elim x [ inl (q, a, b) ↦ cc | inr (q, a, b, t) ↦ cc ]);
    unavailable = (λ x. refl, λ x. h);
    timeout = (λ (q, a, b). cc, λ x. cc);
  }

  process-IsTolerated :
      (o : Option Process)
      → program c ≡ o
      → IsTolerated program max_bytes c
          (let r = run_process timeout max_bytes c o in tolerate r.output r.error)
  process-IsTolerated none h = missing-IsTolerated h
  process-IsTolerated (some p) h = ending-IsTolerated p p.ending h refl

  -- A run is marked as truncated exactly if the program ended by itself with another status than success and
  -- complained of a cut capture; it gives no error exactly then and where it ended well; and its error is
  -- that of a missing program, or of a timeout, exactly if the program is missing, or was stopped.
  pub run_tolerant-IsTolerated :
      IsTolerated program max_bytes c (run_tolerant program timeout max_bytes c)
  unfolding run_tolerant
  run_tolerant-IsTolerated = process-IsTolerated (program c) refl
