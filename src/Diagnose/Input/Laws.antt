-- ===== src/Diagnose/Input/Laws.antt =====
-- Which inputs are accepted, and what the findings for an error say.
use cute_pcap_mcp.Base.{
  leb→le, length-take, length-append, take, ◌≤◌, Bool, true, false, not, ◌&&◌, ◌||◌, List, [], ◌∷◌,
  ◌++◌, Option, none, some, ◌≡◌, refl, sym, ◌∙◌, ◌↔◌, ◌⊎◌, inl, inr, leb, if◌then◌else◌, All, arith,
  Bool-cases, length,
}
use cute_pcap_mcp.Base.Text.{Bytes, codes, eq_bytes, to_lower, trim_space, is_empty}
use cute_pcap_mcp.Base.Int.{ℤ, pos, ◌≤ℤ◌}
use cute_pcap_mcp.Errors.{Err}
use cute_pcap_mcp.Diagnose.{Finding, Flow, Scope}
use cute_pcap_mcp.Errors.Laws.{classify-wrapped, classify-field}
use cute_pcap_mcp.Diagnose.{error}
use cute_pcap_mcp.Diagnose.Flows.{matches_scope}
use cute_pcap_mcp.Errors.{Sentinel, wrapped, classify, ToolError, token}
use cute_pcap_mcp.Diagnose.Run.{is_symptom_code}
use cute_pcap_mcp.Diagnose.Input.{
  reason_part, field_part, join_spaces, error_code, tool_error_detail, classify, finding_for_error,
  validate_input, bounded_detail, validate_expectations, is_natural, validate_scope, is_port, Input,
  is_sha256_hex, or_check, check, is_set, validate_filter,
}

or_check_iff : (a b : Option Err) → (or_check a b ≡ none) ↔ ((a ≡ none) × (b ≡ none))
or_check_iff none b = (λ e. (refl, e), λ h. h.1)
or_check_iff (some x) b = (λ e. cc, λ h. cc)

check_iff : (b : Bool) (e : Err) → (check b e ≡ none) ↔ (b ≡ true)
check_iff true e = (λ h. refl, λ h. refl)
check_iff false e = (λ h. cc, λ h. cc)

abbrev pub IsPort : Option ℤ → Type 0
IsPort none = Unit
IsPort (some n) = (pos 0 ≤ℤ n) × (n ≤ℤ pos 65535)

abbrev pub IsSize : Option ℤ → Type 0
IsSize none = Unit
IsSize (some n) = pos 0 ≤ℤ n

module _ (is_address : Bytes → Bool) where
  abbrev pub IsAddress : Bytes → Type 0
  IsAddress value = (is_empty (trim_space value) ≡ true) ⊎ (is_address (trim_space value) ≡ true)

  abbrev pub is_protocol : Bytes → Bool
  is_protocol p =
      is_empty p
      || eq_bytes p (codes "tcp")
      || eq_bytes p (codes "udp")
      || eq_bytes p (codes "icmp")

  abbrev pub protocol_of : Scope → Bytes
  protocol_of scope = to_lower (trim_space scope.protocol)

  pub record IsScope (scope : Scope) : Type 0 where
    pub source : IsAddress scope.source_ip
    pub destination : IsAddress scope.destination_ip
    pub source_port : IsPort scope.source_port
    pub destination_port : IsPort scope.destination_port
    pub protocol : is_protocol (protocol_of scope) ≡ true
    pub no_icmp_port :
        eq_bytes (protocol_of scope) (codes "icmp") ≡ true
        → (is_set scope.source_port ≡ false) × (is_set scope.destination_port ≡ false)

  abbrev pub IsOptScope : Option Scope → Type 0
  IsOptScope none = Unit
  IsOptScope (some scope) = IsScope scope

  pub record IsAccepted (i : Input) : Type 0 where
    pub path : is_empty (trim_space i.path) ≡ false
    pub sha256 : (is_empty i.expected_sha256 || is_sha256_hex i.expected_sha256) ≡ true
    pub size : IsSize i.expected_size_bytes
    pub scope : IsOptScope i.scope
    pub filter : All (λ t. is_symptom_code t ≡ true) i.symptom_filter

is_port-IsPort : (o : Option ℤ) → (is_port o ≡ true) ↔ IsPort o
is_port-IsPort none = (λ h. tt, λ h. refl)
is_port-IsPort (some n) = (λ h. (ground arith, ground arith), λ h. ground arith)

filter_iff :
    (ts : List Bytes) → (validate_filter ts ≡ none) ↔ All (λ t. is_symptom_code t ≡ true) ts
unfolding validate_filter
filter_iff [] = (λ h. tt, λ h. refl)
filter_iff (t ∷ ts) = (
  λ h. let (a, b) = (or_check_iff _ _).0 h in ((check_iff _ _).0 a, (filter_iff ts).0 b),
  λ h. (or_check_iff _ _).1 ((check_iff _ _).1 h.0, (filter_iff ts).1 h.1),
)

both_iff :
    {P Q : Type 0} (a b : Option Err)
    → (a ≡ none) ↔ P
    → (b ≡ none) ↔ Q
    → (or_check a b ≡ none) ↔ (P × Q)
both_iff a b p q = (
  λ e. let (x, y) = (or_check_iff a b).0 e in (p.0 x, q.0 y),
  λ h. (or_check_iff a b).1 (p.1 h.0, q.1 h.1),
)

checked_iff : {P : Type 0} (b : Bool) (e : Err) → (b ≡ true) ↔ P → (check b e ≡ none) ↔ P
checked_iff b e p = (λ h. p.0 ((check_iff b e).0 h), λ h. (check_iff b e).1 (p.1 h))

or_iff : (a b : Bool) → ((a || b) ≡ true) ↔ ((a ≡ true) ⊎ (b ≡ true))
or_iff true b = (λ h. inl refl, λ h. refl)
or_iff false b = (λ h. inr h, λ h. elim h [ inl e ↦ absurd (cc) | inr e ↦ e ])

not_iff : (a : Bool) → (not a ≡ true) ↔ (a ≡ false)
not_iff true = (λ h. cc, λ h. cc)
not_iff false = (λ h. refl, λ h. refl)

icmp_iff : (a b c : Bool) → (not (a && (b || c)) ≡ true) ↔ (a ≡ true → (b ≡ false) × (c ≡ false))
icmp_iff true true c = (λ h. cc, λ h. absurd (let k = (h refl).0 in ground (arith, k)))
icmp_iff true false true = (λ h. cc, λ h. absurd (let k = (h refl).1 in ground (arith, k)))
icmp_iff true false false = (λ h. λ k. (refl, refl), λ h. refl)
icmp_iff false b c = (λ h. λ k. absurd (ground (arith, k)), λ h. refl)

self_iff : (b : Bool) → (b ≡ true) ↔ (b ≡ true)
self_iff b = (λ h. h, λ h. h)

is_natural-IsSize : (o : Option ℤ) → (is_natural o ≡ true) ↔ IsSize o
is_natural-IsSize none = (λ h. tt, λ h. refl)
is_natural-IsSize (some n) = (λ h. ground arith, λ h. ground arith)

expectations_iff :
    (sha256 : Bytes) (size : Option ℤ)
    → (validate_expectations sha256 size ≡ none)
      ↔ (((is_empty sha256 || is_sha256_hex sha256) ≡ true) × IsSize size)
unfolding validate_expectations
expectations_iff sha256 size =
    both_iff _ _ (checked_iff _ _ (self_iff (is_empty sha256 || is_sha256_hex sha256)))
      (checked_iff _ _ (is_natural-IsSize size))

module _ (is_address : Bytes → Bool) where
  scope_checks :
      (scope : Scope)
      → (validate_scope is_address (some scope) ≡ none) ↔ (
          IsAddress is_address scope.source_ip
          × (IsAddress is_address scope.destination_ip
              × (IsPort scope.source_port
                  × (IsPort scope.destination_port
                      × ((is_protocol is_address (protocol_of is_address scope) ≡ true)
                          × (eq_bytes (protocol_of is_address scope) (codes "icmp") ≡ true
                              → (is_set scope.source_port ≡ false)
                                × (is_set scope.destination_port ≡ false)))))))
  unfolding validate_scope
  scope_checks scope =
      let protocol = to_lower (trim_space scope.protocol) in
      both_iff _ _
        (checked_iff _ _ (
          or_iff (is_empty (trim_space scope.source_ip)) (is_address (trim_space scope.source_ip))))
        (both_iff _ _
          (checked_iff _ _ (
            or_iff (is_empty (trim_space scope.destination_ip))
              (is_address (trim_space scope.destination_ip))))
          (both_iff _ _ (checked_iff _ _ (is_port-IsPort scope.source_port)) (
            both_iff _ _ (checked_iff _ _ (is_port-IsPort scope.destination_port)) (
              both_iff _ _ (checked_iff _ _ (self_iff (is_protocol is_address protocol))) (
                checked_iff _ _ (
                  icmp_iff (eq_bytes protocol (codes "icmp")) (is_set scope.source_port)
                    (is_set scope.destination_port)))))))

  scope_iff :
      (scope : Option Scope)
      → (validate_scope is_address scope ≡ none) ↔ IsOptScope is_address scope
  unfolding validate_scope
  scope_iff none = (λ h. tt, λ h. refl)
  scope_iff (some scope) = (
    λ h.
        let (a, (b, (c, (d, (e, f))))) = (scope_checks scope).0 h in
        record {
          source = a;
          destination = b;
          source_port = c;
          destination_port = d;
          protocol = e;
          no_icmp_port = f;
        },
    λ h. (scope_checks scope).1 (
      h.source,
      (h.destination, (h.source_port, (h.destination_port, (h.protocol, h.no_icmp_port)))),
    ),
  )

  validate_checks :
      (i : Input)
      → (validate_input is_address i ≡ none) ↔ (
          (is_empty (trim_space i.path) ≡ false)
          × ((((is_empty i.expected_sha256 || is_sha256_hex i.expected_sha256) ≡ true)
                × IsSize i.expected_size_bytes)
              × (IsOptScope is_address i.scope
                  × All (λ t. is_symptom_code t ≡ true) i.symptom_filter)))
  unfolding validate_input
  validate_checks i = both_iff _ _ (checked_iff _ _ (not_iff (is_empty (trim_space i.path)))) (
      both_iff _ _ (expectations_iff i.expected_sha256 i.expected_size_bytes)
        (both_iff _ _ (scope_iff i.scope) (filter_iff i.symptom_filter)))

  -- The validation accepts exactly the inputs with a path, well-formed expectations, a scope of
  -- addresses, ports up to 65535, a known protocol and no port with ICMP, and known symptom tokens.
  pub validate_input_iff :
      (i : Input) → (validate_input is_address i ≡ none) ↔ IsAccepted is_address i
  unfolding validate_input
  validate_input_iff i =
      let checks = validate_checks i in
      (
        λ h.
            let (a, ((b, c), (d, e))) = checks.0 h in
            record { path = a; sha256 = b; size = c; scope = d; filter = e },
        λ h. checks.1 (h.path, ((h.sha256, h.size), (h.scope, h.filter))),
      )

eq_bytes_empty : (s t : Bytes) → is_empty s ≡ false → is_empty t ≡ true → eq_bytes s t ≡ false
unfolding eq_bytes
eq_bytes_empty [] t h k = absurd (ground arith)
eq_bytes_empty (c ∷ s) [] h k = refl
eq_bytes_empty (c ∷ s) (d ∷ t) h k = absurd (ground arith)

-- The validation takes a scope with a blank, not empty source address for the scope without one, but no
-- flow with a source address matches such a scope.
pub matches_scope-blank :
    (is_address : Bytes → Bool) (scope : Scope) (flow : Flow)
    → is_empty scope.source_ip ≡ false
    → is_empty (trim_space scope.source_ip) ≡ true
    → is_empty flow.source_ip ≡ false
    → (validate_scope is_address (some scope)
        ≡ validate_scope is_address (some (record scope { source_ip = [] })))
      × (matches_scope flow (some scope) ≡ false)
unfolding matches_scope validate_scope
matches_scope-blank is_address scope flow a b c =
    (rw (b) refl, ground (arith, eq_bytes_empty flow.source_ip (trim_space scope.source_ip) c b))

-- The finding for an error of the program does not depend on the text that the error wraps, so it
-- repeats nothing of the input or of the file system.
pub finding_for_error-wrapped :
    (s : Sentinel) (detail other : Bytes)
    → finding_for_error (wrapped s detail) ≡ finding_for_error (wrapped s other)
unfolding finding_for_error tool_error_detail
finding_for_error-wrapped s detail other =
    let a = classify-wrapped s detail in
    let b = classify-wrapped s other in
    let same = finding_of (classify (wrapped s detail)) (classify (wrapped s other)) in
    same (a.kind ∙ sym b.kind) (classify-field s detail other) (a.reason ∙ sym b.reason)
  where
    finding_of :
        (t u : ToolError)
        → t.kind ≡ u.kind
        → t.field ≡ u.field
        → t.reason ≡ u.reason
        → ◌≡◌ {A = Finding}
            (record {
              code = error_code t.kind;
              severity = error;
              detail = bounded_detail (tool_error_detail t);
            })
            (record {
              code = error_code u.kind;
              severity = error;
              detail = bounded_detail (tool_error_detail u);
            })
    finding_of t u k f r = λ i. record {
      code = error_code (k i);
      severity = error;
      detail =
          bounded_detail
            (join_spaces ((codes "kind=" ++ token (k i)) ∷ field_part (f i) ++ reason_part (r i)));
    }

cut_length :
    (t mark : Bytes)
    → length mark ≡ 14
    → length (if leb (length t) 240 then t else take 240 t ++ mark) ≤ 254
cut_length t mark h = elim (Bool-cases (leb (length t) 240)) [
  | inl e ↦ let k : length t ≤ 254 = omega (arith, leb→le (length t) 240 e) in rw e k
  | inr e ↦
      let k : length (take 240 t ++ mark) ≤ 254 =
        omega (arith, h, length-append (take 240 t) mark, length-take 240 t) in
      rw e k
]

-- A detail is at most 240 bytes and a mark.
pub bounded_detail-length : (s : Bytes) → length (bounded_detail s) ≤ 254
unfolding bounded_detail
bounded_detail-length s = cut_length (trim_space s) (codes "...[truncated]") refl
