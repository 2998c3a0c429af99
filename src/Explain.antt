-- ===== src/Explain.antt =====
-- The selector of one connection: `explainInput`, `FiveTuple`, `validateExplainInput` and
-- `buildFiveTupleFilter` of internal/pcap/explain.go.
pub mod Valid
pub mod Frame
pub mod Resolve
pub mod Laws
pub mod Tests
use cute_pcap_mcp.Base.{
  ℕ, zero, suc, ◌+◌, ◌-◌, ◌*◌, ◌%◌, ◌/◌, ◌<◌, ◌≤◌, Bool, true, false, not, ◌&&◌, ◌||◌, List, [],
  ◌∷◌, ◌++◌, map, Option, none, some, ◌≡◌, ◌≢◌, refl, sym, ap, ◌∙◌, ◌↔◌, ◌⊎◌, inl, inr, ltb, leb,
  ◌==◌, if◌then◌else◌, All, All-append, arith, Bool-cases, Option-cases, some_eq, length, any, all,
  take, drop, get_elem?, length-append, length-take, not-true,
}
use mathlib.Core.Option.{none, some}
use cute_pcap_mcp.Base.Text.{Bytes, codes, eq_bytes, to_lower, trim_space, is_empty}
use cute_pcap_mcp.Base.Text.Atoi.{print_int}
use cute_pcap_mcp.Base.Int.{ℤ, pos, lt_ℤ}
use cute_pcap_mcp.Errors.{
  Err, Result, ok, failed, then_do, require, validation, empty, invalid_format, out_of_range,
  missing_field_error,
}
use cute_pcap_mcp.Artifact.{Expectations}
use cute_pcap_mcp.Profile.{Net, F5Context, is_port, validate_f5_context}

pub record FiveTuple : Type 0 where
  pub source_ip : Bytes
  pub source_port : ℤ
  pub dest_ip : Bytes
  pub dest_port : ℤ
  pub protocol : Bytes

pub record ExplainInput : Type 0 where
  pub path : Bytes
  pub zeek_uid : Bytes
  pub five_tuple : Option FiveTuple
  pub frame_number : ℤ
  pub max_packet_rows : ℤ
  pub redact_secrets : Option Bool
  pub write_artifacts : Option Bool
  pub include_ascii : Option Bool
  pub expected : Expectations
  pub analysis_profile : Bytes
  pub f5_context : Option F5Context
  pub tls_keylog_path : Bytes

abbrev count_true : Bool → ℕ → ℕ
count_true b n = if b then suc n else n

abbrev pub is_given {ℓ} : {A : Type ℓ} → Option A → Bool
is_given none = false
is_given (some a) = true

-- The number of selectors that are set.
unfoldable pub selector_count : ExplainInput → ℕ
unfolding trim_space
selector_count input =
    count_true (not (is_empty (trim_space input.zeek_uid)))
      (count_true (is_given input.five_tuple) (count_true (lt_ℤ (pos 0) input.frame_number) 0))

abbrev invalid : Bytes → Bytes → Err
invalid field message = validation field invalid_format message

abbrev pub is_stream_protocol : Bytes → Bool
is_stream_protocol p = eq_bytes p (codes "tcp") || eq_bytes p (codes "udp")

unfoldable pub check_protocol : {A : Type 0} → FiveTuple → Result A → Result A
unfolding to_lower eq_bytes
check_protocol ft next =
    if is_stream_protocol (to_lower ft.protocol)
    then next
    else if is_empty (to_lower ft.protocol)
    then failed
        (validation (codes "five_tuple.protocol") empty (codes "protocol is required (tcp or udp)"))
    else failed (
        invalid (codes "five_tuple.protocol")
          (codes "protocol must be tcp or udp; got " ++ ft.protocol))

abbrev eq_Bool : Bool → Bool → Bool
eq_Bool true b = b
eq_Bool false b = not b

module _ {Addr : Type 0} (net : Net Addr) where
  unfoldable pub parse_address : Bytes → Bytes → Bytes → Result Addr
  unfolding trim_space
  parse_address field name ip = elim (net.parse (trim_space ip)) [
    | some a ↦ ok a
    | none ↦ failed (
        invalid field
          (name ++ codes " is not a valid IP address: " ++ net.parse_error (trim_space ip)))
  ]

  abbrev pub canonical : FiveTuple → Addr → Addr → FiveTuple
  canonical ft src dst = record ft {
    source_ip = net.without_zone src;
    dest_ip = net.without_zone dst;
  }

  -- The checks of a five-tuple, which is given back with the canonical text of its addresses.
  unfoldable pub check_tuple : FiveTuple → Result FiveTuple
  unfolding then_do require parse_address check_protocol
  check_tuple ft =
      require (not (is_empty ft.source_ip || is_empty ft.dest_ip))
        (validation (codes "five_tuple") empty (codes "source_ip and dest_ip are required"))
        (then_do (parse_address (codes "five_tuple.source_ip") (codes "source_ip") ft.source_ip)
          (λ src.
            then_do (parse_address (codes "five_tuple.dest_ip") (codes "dest_ip") ft.dest_ip)
              (λ dst.
                require (eq_Bool (net.is4 src) (net.is4 dst))
                  (invalid (codes "five_tuple") (
                    codes
                      "source_ip and dest_ip must be the same address family (both IPv4 or both IPv6)"))
                  (check_protocol ft (
                    require (is_port ft.source_port)
                      (validation (codes "five_tuple.source_port") out_of_range
                        (codes "source_port must be in [0, 65535]"))
                      (require (is_port ft.dest_port)
                        (validation (codes "five_tuple.dest_port") out_of_range
                          (codes "dest_port must be in [0, 65535]"))
                        (ok (canonical ft src dst))))))))

  abbrev pub check_selector : Option FiveTuple → Result (Option FiveTuple)
  check_selector none = ok none
  check_selector (some ft) = then_do (check_tuple ft) (λ t. ok (some t))

  abbrev pub unless_error : {A : Type 0} → Option Err → A → Result A
  unless_error none a = ok a
  unless_error (some e) a = failed e

  abbrev pub with_tuple : ExplainInput → Option FiveTuple → ExplainInput
  with_tuple input t = record input { five_tuple = t }

  -- `validateExplainInput`; the checked input is given back, since the code rewrites its five-tuple.
  unfoldable pub validate_explain_input : ExplainInput → Result ExplainInput
  unfolding then_do require missing_field_error selector_count check_tuple validate_f5_context
      print_int
  validate_explain_input input =
      require (not (is_empty input.path)) (missing_field_error (codes "path")) (
        require (ltb 0 (selector_count input))
          (validation (codes "selector") empty
            (codes "exactly one of zeek_uid, five_tuple, or frame_number is required"))
          (require (ltb (selector_count input) 2)
            (invalid (codes "selector") (
              codes "exactly one of zeek_uid, five_tuple, or frame_number may be set; received "
              ++ print_int (pos (selector_count input))))
            (then_do (check_selector input.five_tuple) (λ t.
              require (not (lt_ℤ input.max_packet_rows (pos 0)))
                (validation (codes "max_packet_rows") out_of_range
                  (codes "max_packet_rows must be non-negative"))
                (unless_error (validate_f5_context net input.f5_context) (with_tuple input t))))))

  abbrev pub is_v6 : Bytes → Bool
  is_v6 ip = elim (net.parse ip) [ none ↦ false | some a ↦ not (net.is4 a) ]

  -- `buildFiveTupleFilter`
  unfoldable pub build_five_tuple_filter : FiveTuple → Bytes
  unfolding to_lower print_int
  build_five_tuple_filter ft =
      let proto = to_lower ft.protocol in
      let field =
        if is_v6 ft.source_ip || is_v6 ft.dest_ip then codes "ipv6.addr" else codes "ip.addr" in
      codes "("
      ++ field
      ++ codes " eq "
      ++ ft.source_ip
      ++ codes " and "
      ++ field
      ++ codes " eq "
      ++ ft.dest_ip
      ++ codes " and "
      ++ proto
      ++ codes ".port eq "
      ++ print_int ft.source_port
      ++ codes " and "
      ++ proto
      ++ codes ".port eq "
      ++ print_int ft.dest_port
      ++ codes ")"
