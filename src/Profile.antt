-- ===== src/Profile.antt =====
-- The context of a load balancer and its checks: `F5Context` and `intToString` of
-- internal/pcap/profile_f5.go, `validateF5Context` of internal/pcap/analyzer.go. The addresses of net/netip
-- are a parameter: a type with its parser, the text of a parse error, the test for IPv4, the text without a
-- zone, and equality.
pub mod Numbers
pub mod Hints
pub mod Section
pub mod Tests
use cute_pcap_mcp.Base.{
  ℕ, zero, suc, ◌+◌, ◌-◌, ◌*◌, ◌%◌, ◌/◌, ◌<◌, ◌≤◌, Bool, true, false, not, ◌&&◌, ◌||◌, List, [],
  ◌∷◌, ◌++◌, map, Option, none, some, ◌≡◌, ◌≢◌, refl, sym, ap, ◌∙◌, ◌↔◌, ◌⊎◌, inl, inr, ltb, leb,
  ◌==◌, if◌then◌else◌, All, All-append, arith, Bool-cases, Option-cases, some_eq, length, any, all,
  take, drop, get_elem?, length-append, length-take, not-true,
}
use mathlib.Core.Option.{none, some}
use cute_pcap_mcp.Base.Text.{Bytes, codes, contains_byte, trim_space, is_empty}
use cute_pcap_mcp.Base.Int.{ℤ, pos, pos_part, neg_part, sub64, lt_ℤ, eq_ℤ}
use cute_pcap_mcp.Errors.{Err, validation, invalid_format, out_of_range, contains_nul, too_long}

pub record Net (Addr : Type 0) : Type 0 where
  pub parse : Bytes → Option Addr
  pub parse_error : Bytes → Bytes
  pub is4 : Addr → Bool
  pub without_zone : Addr → Bytes
  pub same : Addr → Addr → Bool

pub record F5Context : Type 0 where
  pub virtual_server_name : Bytes
  pub virtual_server_ip : Bytes
  pub virtual_server_port : ℤ
  pub snat_pool_name : Bytes
  pub pool_name : Bytes
  pub notes : Bytes

-- The loop of `intToString`, for a number below the fuel.
unfoldable pub digits_of : ℕ → ℕ → Bytes → Bytes
digits_of zero n digits = digits
digits_of (suc fuel) n digits =
    let rest = digits_of fuel (n / 10) ((48 + n % 10) ∷ digits) in if n == 0 then digits else rest

-- The loop body runs while the number is positive.
abbrev pub loop_digits : ℤ → Bytes
loop_digits n = digits_of (suc (pos_part n)) (pos_part n) []

unfoldable pub int_to_string : ℤ → Bytes
unfolding digits_of sub64
int_to_string n =
    if eq_ℤ n (pos 0)
    then codes "0"
    else if lt_ℤ n (pos 0)
    then b'-' ∷ loop_digits (sub64 (pos 0) n)
    else loop_digits n

-- A free field with the most bytes that it may have.
pub record Slot : Type 0 where
  pub name : Bytes
  pub value : Bytes
  pub max_len : ℕ

abbrev pub slots : F5Context → List Slot
slots ctx =
    record {
      name = codes "f5_context.virtual_server_name";
      value = ctx.virtual_server_name;
      max_len = 256;
    }
    ∷ record { name = codes "f5_context.pool_name"; value = ctx.pool_name; max_len = 256 }
    ∷ record { name = codes "f5_context.snat_pool_name"; value = ctx.snat_pool_name; max_len = 256 }
    ∷ record { name = codes "f5_context.notes"; value = ctx.notes; max_len = 4096 }
    ∷ []

-- The first error of the slots; `none` is nil.
unfoldable pub check_slots : List Slot → Option Err
unfolding contains_byte int_to_string
check_slots [] = none
check_slots (s ∷ ss) =
    let rest = check_slots ss in
    if contains_byte s.value 0
    then some (validation s.name contains_nul (s.name ++ codes " must not contain NUL bytes"))
    else if ltb s.max_len (length s.value)
    then some (
        validation s.name too_long
          (s.name ++ codes " must be " ++ int_to_string (pos s.max_len) ++ codes " bytes or less"))
    else rest

abbrev pub is_port : ℤ → Bool
is_port p = not (lt_ℤ p (pos 0)) && not (lt_ℤ (pos 65535) p)

module _ {Addr : Type 0} (net : Net Addr) where
  abbrev pub is_address : Bytes → Bool
  is_address ip = elim (net.parse ip) [ none ↦ false | some a ↦ true ]

  -- `validateF5Context`
  unfoldable pub validate_f5_context : Option F5Context → Option Err
  unfolding check_slots trim_space
  validate_f5_context none = none
  validate_f5_context (some ctx) =
      let ip = trim_space ctx.virtual_server_ip in
      if not (is_empty ip) && not (is_address ip)
      then some (
          validation (codes "f5_context.virtual_server_ip") invalid_format
            (codes "virtual_server_ip is not a valid IP address: " ++ net.parse_error ip))
      else if is_port ctx.virtual_server_port
      then check_slots (slots ctx)
      else some (
          validation (codes "f5_context.virtual_server_port") out_of_range
            (codes "virtual_server_port must be in [0, 65535]"))
