-- ===== src/Profile/Tests.antt =====
-- Addresses that are their texts, a context with a virtual server, and a connection to it.
use cute_pcap_mcp.Base.{true, false, [], ◌∷◌, none, some, ◌≡◌, refl, if◌then◌else◌, arith}
use mathlib.Core.Option.{none, some}
use cute_pcap_mcp.Base.Text.{Bytes, codes, eq_bytes, is_empty, trim_space}
use cute_pcap_mcp.Base.Text.Atoi.{print_int}
use cute_pcap_mcp.Base.Int.{pos, negsuc}
use cute_pcap_mcp.Zeek.{Record}
use cute_pcap_mcp.Signals.{Connection}
use cute_pcap_mcp.Signals.Rows.{connection_of}
use cute_pcap_mcp.Signals.Build.{Summary, signals_of}
use cute_pcap_mcp.Profile.{Net, F5Context, int_to_string, validate_f5_context}
use cute_pcap_mcp.Profile.Numbers.{int_to_string-print_int}
use cute_pcap_mcp.Profile.Hints.{build_snat_hints}
use cute_pcap_mcp.Profile.Hints.Classified.{IsClassified, build_snat_hints-IsClassified}
use cute_pcap_mcp.Profile.Hints.Laws.{IsSome}
use cute_pcap_mcp.Profile.Section.{Profile, build_f5_profile, build_f5_profile-some}

abbrev pub texts : Net Bytes
texts = record {
  parse = λ s. if is_empty s then none else some s;
  parse_error = λ s. codes "unable to parse IP";
  is4 = λ s. true;
  without_zone = λ s. s;
  same = eq_bytes;
}

abbrev pub context : F5Context
context = record {
  virtual_server_name = [];
  virtual_server_ip = codes " 10.0.0.1";
  virtual_server_port = pos 443;
  snat_pool_name = [];
  pool_name = [];
  notes = [];
}

abbrev to_server : Record
to_server = (codes "id.resp_h", codes "10.0.0.1") ∷ (codes "id.resp_p", codes "443") ∷ []

abbrev connection : Connection
connection = connection_of (λ s. none) to_server

abbrev pub summary : Summary
summary = record {
  log_counts = [];
  connections = connection ∷ [];
  dns_queries = [];
  http_requests = [];
  tls_handshakes = [];
  notices = [];
  weird_events = [];
  signals = signals_of (connection ∷ []) [] [] [] [] [];
}

is_valid : validate_f5_context texts (some context) ≡ none
unfolding validate_f5_context
is_valid = refl

int_to_string-print_int_example : int_to_string (negsuc 41) ≡ print_int (negsuc 41)
int_to_string-print_int_example = int_to_string-print_int (negsuc 41) (ground arith) (ground arith)

parses : texts.parse (trim_space context.virtual_server_ip) ≡ some (codes "10.0.0.1")
unfolding trim_space
parses = refl

not_blank : is_empty (trim_space context.virtual_server_ip) ≡ false
unfolding trim_space
not_blank = refl

build_snat_hints-IsClassified_example :
    IsClassified texts
      (codes "10.0.0.1")
      (pos 443)
      summary.connections
      (build_snat_hints texts (some summary) (some context))
build_snat_hints-IsClassified_example =
    build_snat_hints-IsClassified texts summary context (codes "10.0.0.1") connection [] not_blank
      parses (ground arith, ground arith) refl (ground arith)

build_f5_profile-some_example :
    (p : Profile) × (build_f5_profile texts none [] [] none none ≡ some p)
    × IsSome p.section.snat
    × (p.section.context ≡ none)
build_f5_profile-some_example = build_f5_profile-some texts none [] [] none none
