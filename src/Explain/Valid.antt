-- ===== src/Explain/Valid.antt =====
-- An input of pcap_explain_connection that is valid names one connection.
use cute_pcap_mcp.Base.{
  ℕ, Bool, true, false, not, Option, none, some, ◌≡◌, ◌≢◌, refl, sym, ap, ◌∙◌, inl, inr, ltb, arith,
  Bool-cases, Option-cases, some_eq,
}
use mathlib.Core.Option.{none, some}
use mathlib.Core.Path.{subst}
use cute_pcap_mcp.Base.Text.{Bytes, codes, to_lower, trim_space, is_empty}
use cute_pcap_mcp.Base.Int.{pos, lt_ℤ}
use cute_pcap_mcp.Errors.{Err, Result, ok, failed}
use cute_pcap_mcp.Errors.Laws.{then_do-ok, require-ok, ok_eq}
use cute_pcap_mcp.Profile.{Net, is_port, validate_f5_context}
use cute_pcap_mcp.Explain.{
  FiveTuple, ExplainInput, selector_count, is_stream_protocol, check_protocol, eq_Bool,
  parse_address, canonical, check_tuple, check_selector, unless_error, with_tuple,
  validate_explain_input,
}

check_protocol-ok :
    {A : Type 0} (ft : FiveTuple) (next : Result A) (a : A)
    → check_protocol ft next ≡ ok a
    → (is_stream_protocol (to_lower ft.protocol) ≡ true) × (next ≡ ok a)
unfolding check_protocol
check_protocol-ok ft next a h = elim (Bool-cases (is_stream_protocol (to_lower ft.protocol))) [
  | inl p ↦ (p, rw p at h)
  | inr p ↦ elim (Bool-cases (is_empty (to_lower ft.protocol))) [
    | inl q ↦ absurd (ground (arith, rw (p, q) at h))
    | inr q ↦ absurd (ground (arith, rw (p, q) at h))
  ]
]

failed_not_ok : {A : Type 0} {a : A} {e : Err} → failed e ≢ ok a
failed_not_ok h = ground (arith, h)

not-true_eq : (b : Bool) → not b ≡ true → b ≡ false
not-true_eq b h = ground (arith, h)

exactly_one : (n : ℕ) → ltb 0 n ≡ true → ltb n 2 ≡ true → n ≡ 1
exactly_one n h k = ground (arith, h, k)

eq_Bool_lem : (a b : Bool) → eq_Bool a b ≡ true → a ≡ b
eq_Bool_lem a b h = ground (arith, h)

module _ {Addr : Type 0} (net : Net Addr) where
  parse_address-ok :
      (field name ip : Bytes) (a : Addr)
      → parse_address net field name ip ≡ ok a
      → net.parse (trim_space ip) ≡ some a
  unfolding parse_address
  parse_address-ok field name ip a h = elim (Option-cases (net.parse (trim_space ip))) [
    | inl e ↦ absurd (failed_not_ok (rw (parse_address, e) at h))
    | inr (b, e) ↦ e ∙ ap some (ok_eq (rw (parse_address, e) at h))
  ]

  -- A five-tuple with two addresses of one family, a stream protocol and two ports, and what is made of it.
  pub record IsCanonical (ft out : FiveTuple) : Type 0 where
    pub src : Addr
    pub dst : Addr
    pub source : net.parse (trim_space ft.source_ip) ≡ some src
    pub dest : net.parse (trim_space ft.dest_ip) ≡ some dst
    pub family : net.is4 src ≡ net.is4 dst
    pub stream : is_stream_protocol (to_lower ft.protocol) ≡ true
    pub source_port : is_port ft.source_port ≡ true
    pub dest_port : is_port ft.dest_port ≡ true
    pub rewritten : out ≡ canonical net ft src dst

  check_tuple-IsCanonical : (ft out : FiveTuple) → check_tuple net ft ≡ ok out → IsCanonical ft out
  unfolding check_tuple
  check_tuple-IsCanonical ft out h =
      let (a, e1) = require-ok _ _ _ h in
      let (src, b, e2) = then_do-ok _ _ e1 in
      let (dst, c, e3) = then_do-ok _ _ e2 in
      let (d, e4) = require-ok _ _ _ e3 in
      let (p, e5) = check_protocol-ok ft _ out e4 in
      let (q, e6) = require-ok _ _ _ e5 in
      let (r, e7) = require-ok _ _ _ e6 in
      record {
        src = src;
        dst = dst;
        source =
            parse_address-ok (codes "five_tuple.source_ip") (codes "source_ip") ft.source_ip src b;
        dest = parse_address-ok (codes "five_tuple.dest_ip") (codes "dest_ip") ft.dest_ip dst c;
        family = eq_Bool_lem (net.is4 src) (net.is4 dst) d;
        stream = p;
        source_port = q;
        dest_port = r;
        rewritten = sym (ok_eq e7);
      }

  abbrev pub IsChecked : Option FiveTuple → Option FiveTuple → Type 0
  IsChecked none none = Unit
  IsChecked none (some t) = ⊥
  IsChecked (some ft) none = ⊥
  IsChecked (some ft) (some t) = IsCanonical ft t

  check_selector-IsChecked : (o t : Option FiveTuple) → check_selector net o ≡ ok t → IsChecked o t
  check_selector-IsChecked none none h = tt
  check_selector-IsChecked none (some t) h = absurd (ground (arith, h))
  check_selector-IsChecked (some ft) none h =
      let (x, a, e) = then_do-ok _ _ h in absurd (ground (arith, e))
  check_selector-IsChecked (some ft) (some t) h =
      let (x, a, e) = then_do-ok _ _ h in
      check_tuple-IsCanonical ft t (a ∙ ap ok (some_eq (ok_eq e)))

  unless_error-ok :
      {A : Type 0} (e : Option Err) (a b : A) → unless_error net e a ≡ ok b → (e ≡ none) × (a ≡ b)
  unless_error-ok none a b h = (refl, ok_eq h)
  unless_error-ok (some x) a b h = absurd (ground (arith, h))

  pub record IsSelected (input out : ExplainInput) : Type 0 where
    pub path : is_empty input.path ≡ false
    pub one : selector_count input ≡ 1
    pub checked : IsChecked input.five_tuple out.five_tuple
    pub rows : lt_ℤ input.max_packet_rows (pos 0) ≡ false
    pub context : validate_f5_context net input.f5_context ≡ none
    pub rest : out ≡ with_tuple net input out.five_tuple

  -- An input that passes has exactly one selector; a five-tuple has two addresses of one family, TCP or UDP
  -- as its protocol and ports below 65536, and its addresses become their canonical texts; nothing else of
  -- the input changes.
  pub validate_explain_input-IsSelected :
      (input out : ExplainInput) → validate_explain_input net input ≡ ok out → IsSelected input out
  unfolding validate_explain_input
  validate_explain_input-IsSelected input out h =
      let (a, e1) = require-ok _ _ _ h in
      let (b, e2) = require-ok _ _ _ e1 in
      let (c, e3) = require-ok _ _ _ e2 in
      let (t, d, e4) = then_do-ok _ _ e3 in
      let (f, e5) = require-ok _ _ _ e4 in
      let (g, i) =
        unless_error-ok (validate_f5_context net input.f5_context) (with_tuple net input t) out
          e5 in
      record {
        path = not-true_eq (is_empty input.path) a;
        one = exactly_one (selector_count input) b c;
        checked =
            subst (λ o. IsChecked input.five_tuple o.five_tuple) i
              (check_selector-IsChecked input.five_tuple t d);
        rows = not-true_eq (lt_ℤ input.max_packet_rows (pos 0)) f;
        context = g;
        rest = subst (λ o. o ≡ with_tuple net input o.five_tuple) i refl;
      }
