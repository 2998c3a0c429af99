-- ===== src/Tshark.antt =====
-- The evidence of tshark: `runTShark` of internal/pcap/server.go, `runTSharkReport`,
-- `runTSharkPacketSummaries` and `parseTSharkPacketSummaries` of internal/pcap/analyzer.go. `read_csv`
-- is the csv.Reader with its settings, which gives the records or the text of an error; `redact` is the
-- redaction. The metadata of the report, which no caller reads, is left out.
pub mod Laws
mod Tests
use cute_pcap_mcp.Base.{
  ℕ, zero, suc, ◌+◌, ◌-◌, ◌*◌, ◌%◌, ◌/◌, ◌<◌, ◌≤◌, Bool, true, false, not, ◌&&◌, ◌||◌, List, [],
  ◌∷◌, ◌++◌, map, Option, none, some, ◌≡◌, ◌≢◌, refl, sym, ap, ◌∙◌, ◌↔◌, ◌⊎◌, inl, inr, ltb, leb,
  ◌==◌, if◌then◌else◌, All, All-append, arith, Bool-cases, Option-cases, some_eq, length, any, all,
  take, drop, get_elem?, length-append, length-take, not-true,
}
use mathlib.Core.Option.{none, some}
use cute_pcap_mcp.Base.Text.{Bytes, codes, trim_space, is_empty, first_non_empty}
use cute_pcap_mcp.Base.Text.Atoi.{print_int}
use cute_pcap_mcp.Base.Int.{ℤ, pos}
use cute_pcap_mcp.Errors.{
  Err, Result, ok, failed, then_do, wrapped, is, ToolError, classify, invalid_filter_error,
  trim_sentinel_prefix, err_analyzer_failed, err_invalid_filter,
}
use cute_pcap_mcp.FilePaths.{FilePath}
use cute_pcap_mcp.Artifact.{Lookup, found, not_exist, broken, print_path}
use cute_pcap_mcp.Config.{Config}
use cute_pcap_mcp.Command.{Call, Process, Output, Tolerant, run_tolerant, is_filter_error}

-- `TSharkPacketSummary`
pub record PacketSummary : Type 0 where
  pub number : Bytes
  pub time_relative : Bytes
  pub protocol : Bytes
  pub source : Bytes
  pub source_port : Bytes
  pub destination : Bytes
  pub dest_port : Bytes
  pub info : Bytes

-- `TSharkReport`, with its conversations in the order in which they are made.
pub record TsharkReport : Type 0 where
  pub protocol_hierarchy : Bytes
  pub conversations : List (Bytes × Bytes)
  pub packets : List PacketSummary
  pub errors : List ToolError

abbrev pub empty_report : TsharkReport
empty_report = record { protocol_hierarchy = []; conversations = []; packets = []; errors = [] }

-- A result with the mark of a truncated capture.
abbrev pub Marked : Type 0 → Type 0
Marked A = Result (A × Bool)

abbrev field : List Bytes → ℕ → Bytes
field r i = elim (get_elem? r i) [ none ↦ [] | some c ↦ trim_space c ]

abbrev either : List Bytes → ℕ → ℕ → Bytes
either r i j = first_non_empty (field r i ∷ field r j ∷ [])

unfoldable pub packet_of : (Bytes → Bytes) → List Bytes → PacketSummary
unfolding trim_space first_non_empty
packet_of redact r = record {
  number = field r 0;
  time_relative = field r 1;
  protocol = field r 2;
  source = either r 3 4;
  source_port = either r 5 6;
  destination = either r 7 8;
  dest_port = either r 9 10;
  info = redact (field r 11);
}

abbrev pub without_header : {A : Type 0} → List A → List A
without_header [] = []
without_header (r ∷ rs) = rs

abbrev csv_error : Bytes → Err
csv_error text = wrapped err_analyzer_failed (codes "parse tshark packet fields: " ++ text)

abbrev packets_of : (Bytes → Bytes) → Lookup (List (List Bytes)) → Result (List PacketSummary)
packets_of redact (found records) = ok (map (packet_of redact) (without_header records))
packets_of redact not_exist = failed (csv_error [])
packets_of redact (broken text) = failed (csv_error text)

-- `parseTSharkPacketSummaries`
unfoldable pub parse_packets :
    (Bytes → Lookup (List (List Bytes))) → (Bytes → Bytes) → Bytes → Result (List PacketSummary)
unfolding packet_of
parse_packets read_csv redact raw = packets_of redact (read_csv raw)

abbrev pub tshark_call : List Bytes → List Bytes → Call
tshark_call keylog_args args = record {
  name = codes "tshark";
  args = keylog_args ++ args;
  env = [];
}

abbrev packet_fields : List Bytes
packet_fields =
    codes "frame.number"
    ∷ codes "frame.time_relative"
    ∷ codes "_ws.col.Protocol"
    ∷ codes "ip.src"
    ∷ codes "ipv6.src"
    ∷ codes "tcp.srcport"
    ∷ codes "udp.srcport"
    ∷ codes "ip.dst"
    ∷ codes "ipv6.dst"
    ∷ codes "tcp.dstport"
    ∷ codes "udp.dstport"
    ∷ codes "_ws.col.Info"
    ∷ []

abbrev each_field : List Bytes → List Bytes
each_field [] = []
each_field (n ∷ ns) = codes "-e" ∷ n ∷ each_field ns

abbrev filter_args : Bytes → List Bytes
filter_args filter = if is_empty filter then [] else codes "-Y" ∷ filter ∷ []

abbrev packet_args : FilePath → ℤ → Bytes → List Bytes
packet_args path max_rows filter =
    filter_args filter
    ++ codes "-n"
      ∷ codes "-r"
      ∷ print_path path
      ∷ codes "-c"
      ∷ print_int max_rows
      ∷ codes "-T"
      ∷ codes "fields"
      ∷ codes "-E"
      ∷ codes "header=y"
      ∷ codes "-E"
      ∷ codes "separator=/t"
      ∷ codes "-E"
      ∷ codes "quote=d"
      ∷ codes "-E"
      ∷ codes "occurrence=f"
      ∷ each_field packet_fields

abbrev pub conversation_args : FilePath → Bytes → List Bytes
conversation_args path conv =
    codes "-n"
    ∷ codes "-r"
    ∷ print_path path
    ∷ codes "-q"
    ∷ codes "-z"
    ∷ (codes "conv," ++ conv)
    ∷ []

abbrev pub conversation_types : List Bytes
conversation_types = codes "eth" ∷ codes "ip" ∷ codes "tcp" ∷ codes "udp" ∷ []

abbrev pub add_error : Err → TsharkReport → TsharkReport
add_error e r = record r { errors = r.errors ++ classify e ∷ [] }

abbrev pub add_conversation : Bytes → Bytes → TsharkReport → TsharkReport
add_conversation conv table r = record r { conversations = r.conversations ++ (conv, table) ∷ [] }

-- What `runTSharkReport` returns: its report, the mark of a truncated capture and its error.
pub record Ran : Type 0 where
  pub report : TsharkReport
  pub truncated : Bool
  pub error : Option Err

module _ (program : Call → Option Process) (timeout : Bytes) (max_bytes : ℤ)
    (read_csv : Bytes → Lookup (List (List Bytes))) (redact : Bytes → Bytes) where
  abbrev pub run : Call → Tolerant
  run c = run_tolerant program timeout max_bytes c

  abbrev stdout_or : Bytes → Bool → Option Err → Marked Bytes
  stdout_or out truncated none = ok (out, truncated)
  stdout_or out truncated (some e) = failed e

  -- `runTShark`
  unfoldable pub run_tshark : FilePath → List Bytes → Marked Bytes
  unfolding run_tolerant print_path
  run_tshark path keylog_args =
      let r = run (
        tshark_call keylog_args (
          codes "-n"
          ∷ codes "-r"
          ∷ print_path path
          ∷ codes "-q"
          ∷ codes "-z"
          ∷ codes "io,phs"
          ∷ [])) in
      stdout_or r.output.stdout r.truncated r.error

  abbrev parsed : Bool → Result (List PacketSummary) → Marked (List PacketSummary)
  parsed truncated (ok ps) = ok (ps, truncated)
  parsed truncated (failed e) = failed e

  abbrev summaries_or : Bytes → Bytes → Bool → Option Err → Marked (List PacketSummary)
  summaries_or filter out truncated none = parsed truncated (parse_packets read_csv redact out)
  summaries_or filter out truncated (some e) =
      if not (is_empty filter) && is_filter_error e
      then failed (invalid_filter_error (trim_sentinel_prefix e err_analyzer_failed))
      else failed e

  -- `runTSharkPacketSummaries`
  unfoldable pub run_packet_summaries :
      FilePath → ℤ → Bytes → List Bytes → Marked (List PacketSummary)
  unfolding run_tolerant parse_packets print_path print_int is_filter_error invalid_filter_error
      trim_sentinel_prefix
  run_packet_summaries path max_rows filter keylog_args =
      let r = run (tshark_call keylog_args (packet_args path max_rows filter)) in
      summaries_or filter r.output.stdout r.truncated r.error

  -- The body of the loop over the conversation tables.
  abbrev pub add_table :
      Bytes → Bytes → Bool → Option Err → TsharkReport × Bool → TsharkReport × Bool
  add_table conv table truncated (some e) (r, t) = (add_error e r, t)
  add_table conv table truncated none (r, t) = (add_conversation conv table r, t || truncated)

  unfoldable pub run_conversations :
      FilePath → List Bytes → List Bytes → TsharkReport × Bool → TsharkReport × Bool
  unfolding run_tolerant classify print_path
  run_conversations path keylog_args [] state = state
  run_conversations path keylog_args (conv ∷ convs) state =
      let r = run (tshark_call keylog_args (conversation_args path conv)) in
      run_conversations path keylog_args convs
        (add_table conv r.output.stdout r.truncated r.error state)

  abbrev pub with_packets : TsharkReport × Bool → Marked (List PacketSummary) → Ran
  with_packets (r, t) (ok (ps, truncated)) = record {
    report = record r { packets = ps };
    truncated = t || truncated;
    error = none;
  }
  with_packets (r, t) (failed e) = record {
    report = add_error e r;
    truncated = t;
    error = if is e err_invalid_filter then some e else none;
  }

  abbrev pub after_hierarchy : FilePath → ℤ → Bytes → List Bytes → Marked Bytes → Ran
  after_hierarchy path max_rows filter keylog_args (failed e) = record {
    report = empty_report;
    truncated = false;
    error = some e;
  }
  after_hierarchy path max_rows filter keylog_args (ok (hierarchy, truncated)) =
      with_packets
        (run_conversations path keylog_args conversation_types
          (record empty_report { protocol_hierarchy = hierarchy }, truncated))
        (run_packet_summaries path max_rows filter keylog_args)

  unfoldable pub run_report : FilePath → ℤ → Bytes → List Bytes → Ran
  unfolding run_tshark run_conversations run_packet_summaries is classify
  run_report path max_rows filter keylog_args =
      after_hierarchy path max_rows filter keylog_args (run_tshark path keylog_args)
