-- ===== src/Explain/Tests.antt =====
-- An explicit five-tuple, and a frame of IPv6, whose five-tuple has no addresses.
use cute_pcap_mcp.Base.{Bool, [], ◌∷◌, ◌++◌, Option, none, some, ◌≡◌, refl}
use mathlib.Core.Option.{none, some}
use cute_pcap_mcp.Base.Text.{Bytes, codes}
use cute_pcap_mcp.Base.Text.Decimal.{decimal}
use cute_pcap_mcp.Base.Int.{pos}
use cute_pcap_mcp.Errors.{Result, ok, failed, canceled}
use cute_pcap_mcp.Artifact.{ArtifactInfo}
use cute_pcap_mcp.Artifact.Tests.{real}
use cute_pcap_mcp.Command.{Call, Process, finished}
use cute_pcap_mcp.Zeek.Report.{ZeekReport}
use cute_pcap_mcp.Profile.Tests.{texts}
use cute_pcap_mcp.Explain.{FiveTuple, ExplainInput, validate_explain_input}
use cute_pcap_mcp.Explain.Frame.{Stream, resolve_frame_number}
use cute_pcap_mcp.Explain.Resolve.{ResolvedSelector, by_five_tuple, resolve_selector}
use cute_pcap_mcp.Explain.Valid.{IsSelected, validate_explain_input-IsSelected}
use cute_pcap_mcp.Explain.Laws.{IsResolved, resolve_selector-IsResolved}

abbrev tuple : FiveTuple
tuple = record {
  source_ip = codes "10.0.0.1";
  source_port = pos 443;
  dest_ip = codes "10.0.0.2";
  dest_port = pos 5000;
  protocol = codes "TCP";
}

abbrev pub input : ExplainInput
input = record {
  path = codes "a.pcap";
  zeek_uid = [];
  five_tuple = some tuple;
  frame_number = pos 0;
  max_packet_rows = pos 0;
  redact_secrets = none;
  write_artifacts = none;
  include_ascii = none;
  expected = record { sha256 = []; size_bytes = none };
  analysis_profile = [];
  f5_context = none;
  tls_keylog_path = [];
}

abbrev source : ArtifactInfo
source = record { path = real; size_bytes = pos 5; sha256 = codes "ab" }

abbrev prints : Bytes → Call → Option Process
prints out c = some (record { stdout = out ∷ []; stderr = []; ending = finished })

abbrev no_zeek : Result (ZeekReport × Bool)
no_zeek = failed canceled

abbrev selector : ResolvedSelector
selector = record {
  resolution = by_five_tuple;
  zeek_uid = [];
  five_tuple = some tuple;
  frame_number = pos 0;
  stream_id = [];
  display_filter =
      codes
        "(ip.addr eq 10.0.0.1 and ip.addr eq 10.0.0.2 and tcp.port eq 443 and tcp.port eq 5000)";
}

is_valid : validate_explain_input texts input ≡ ok input
unfolding validate_explain_input
is_valid = refl

resolves :
    resolve_selector texts (λ s. s) (prints []) (codes "20s") (λ s. none) no_zeek source input
    ≡ ok selector
unfolding resolve_selector decimal
resolves = refl

abbrev tuple_of : Result Stream → Option FiveTuple
tuple_of (ok s) = some s.five_tuple
tuple_of (failed e) = none

-- tshark gives no ip.src and no ip.dst for IPv6, whose columns are not asked for.
no_addresses :
    tuple_of (
      resolve_frame_number
        (prints (
          codes "0"
          ++ 9 ∷ 9 ∷ 9 ∷ 9 ∷ codes "443"
          ++ 9 ∷ codes "5000"
          ++ 9 ∷ 9 ∷ 9 ∷ codes "TLSv1.3"))
        (codes "20s")
        (λ s. none)
        source
        (pos 7))
    ≡ some (record {
      source_ip = [];
      source_port = pos 443;
      dest_ip = [];
      dest_port = pos 5000;
      protocol = codes "tcp";
    })
unfolding resolve_frame_number decimal
no_addresses = refl

validate_explain_input-IsSelected_example : IsSelected texts input input
validate_explain_input-IsSelected_example =
    validate_explain_input-IsSelected texts input input is_valid

resolve_selector-IsResolved_example :
    IsResolved texts (λ s. s) (prints []) (codes "20s") (λ s. none) no_zeek source input selector
resolve_selector-IsResolved_example =
    resolve_selector-IsResolved texts (λ s. s) (prints []) (codes "20s") (λ s. none) no_zeek source
      input input selector is_valid resolves
