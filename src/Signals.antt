-- ===== src/Signals.antt =====
-- Summaries of the records of Zeek: internal/pcap/signals.go, and `buildTCPHealth` of
-- internal/pcap/analyzer.go. The parameter `redact` is the redaction with its mark, and `parse_float` is
-- strconv.ParseFloat followed by the conversion to int64. The map of the signals is a record of counts; a
-- count of 0 stands for a missing key of the last three.
pub mod Rows
pub mod Build
pub mod Health
pub mod Laws
mod Tests
use cute_pcap_mcp.Base.{
  ℕ, zero, suc, ◌+◌, ◌-◌, ◌*◌, ◌%◌, ◌/◌, ◌<◌, ◌≤◌, Bool, true, false, not, ◌&&◌, ◌||◌, List, [],
  ◌∷◌, ◌++◌, map, Option, none, some, ◌≡◌, ◌≢◌, refl, sym, ap, ◌∙◌, ◌↔◌, ◌⊎◌, inl, inr, ltb, leb,
  ◌==◌, if◌then◌else◌, All, All-append, arith, Bool-cases, Option-cases, some_eq, length, any, all,
  take, drop, get_elem?, length-append, length-take, not-true,
}
use mathlib.Core.Option.{none, some}
use cute_pcap_mcp.Base.Sort.{sort}
use cute_pcap_mcp.Base.Text.{
  Bytes, codes, eq_bytes, lt_bytes, contains, to_upper, trim_space, is_empty,
}
use cute_pcap_mcp.Base.Text.Atoi.{atoi}
use cute_pcap_mcp.Base.Int.{ℤ, pos, lt_ℤ, add64}
use cute_pcap_mcp.Zeek.{Record, Log, value_of}

abbrev pub summary_record_limit : ℕ
summary_record_limit = 25

pub record LogCount : Type 0 where
  pub name : Bytes
  pub records : ℕ
  pub truncated : Bool

pub record Connection : Type 0 where
  pub uid : Bytes
  pub protocol : Bytes
  pub service : Bytes
  pub source : Bytes
  pub source_port : Bytes
  pub destination : Bytes
  pub dest_port : Bytes
  pub duration : Bytes
  pub conn_state : Bytes
  pub history : Bytes
  pub orig_bytes : ℤ
  pub resp_bytes : ℤ
  pub total_bytes : ℤ

pub record DnsQuery : Type 0 where
  pub uid : Bytes
  pub source : Bytes
  pub query : Bytes
  pub type_ : Bytes
  pub response : Bytes
  pub answers : List Bytes
  pub rejected : Bool

pub record HttpRequest : Type 0 where
  pub uid : Bytes
  pub source : Bytes
  pub destination : Bytes
  pub method : Bytes
  pub host : Bytes
  pub uri : Bytes
  pub user_agent : Bytes
  pub status_code : ℤ
  pub status_msg : Bytes
  pub mime_type : Bytes
  pub redacted : Bool

pub record TlsHandshake : Type 0 where
  pub uid : Bytes
  pub source : Bytes
  pub destination : Bytes
  pub server_name : Bytes
  pub version : Bytes
  pub cipher : Bytes
  pub ja3 : Bytes
  pub ja3s : Bytes
  pub validation_status : Bytes

pub record ZeekEvent : Type 0 where
  pub uid : Bytes
  pub name : Bytes
  pub note : Bytes
  pub message : Bytes
  pub source : Bytes
  pub destination : Bytes

-- "" and "-" stand for no value.
unfoldable pub is_unset : Bytes → Bool
unfolding eq_bytes
is_unset value = is_empty value || eq_bytes value (codes "-")

-- `recordValue`
unfoldable pub record_value : Record → List Bytes → Bytes
unfolding value_of trim_space is_unset
record_value r [] = []
record_value r (key ∷ keys) =
    let value = trim_space (value_of key r) in
    let rest = record_value r keys in if is_unset value then rest else value

abbrev pub value : Record → Bytes → Bytes
value r key = record_value r (key ∷ [])

abbrev pub value_or : Record → Bytes → Bytes → Bytes
value_or r key other = record_value r (key ∷ other ∷ [])

abbrev pub float_or_zero : Option ℤ → ℤ
float_or_zero none = pos 0
float_or_zero (some n) = n

abbrev pub int_or : Option ℤ → ℤ → ℤ
int_or none n = n
int_or (some m) n = m

-- strings.FieldsFunc at commas and semicolons, with the parts trimmed and the unset ones dropped.
abbrev close_part : Bytes → List Bytes → List Bytes
close_part part rest = let tidy = trim_space part in if is_unset tidy then rest else tidy ∷ rest

unfoldable pub set_from : Bytes → Bytes → List Bytes
set_from part [] = close_part part []
set_from part (c ∷ s) =
    let ended = close_part part (set_from [] s) in
    let more = set_from (part ++ c ∷ []) s in if c == b',' || c == b';' then ended else more

-- `zeekSet`
unfoldable pub zeek_set : Bytes → List Bytes
unfolding set_from is_unset trim_space
zeek_set value = if is_unset value then [] else set_from [] value

-- `dnsRejected`
unfoldable pub dns_rejected : Bytes → Bool
unfolding to_upper trim_space eq_bytes
dns_rejected response =
    let r = to_upper (trim_space response) in
    not (is_empty r) && not (eq_bytes r (codes "NOERROR")) && not (eq_bytes r (codes "0"))

-- `connectionLooksReset`
unfoldable pub looks_reset : Connection → Bool
unfolding to_upper contains
looks_reset c =
    contains (to_upper c.conn_state) (codes "RST") || contains (to_upper c.history) (codes "R")
