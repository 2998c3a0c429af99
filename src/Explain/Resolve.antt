-- ===== src/Explain/Resolve.antt =====
-- The selector resolved: `resolveSelector` and `resolveZeekUID` of internal/pcap/explain.go. The run of Zeek is a parameter here,
-- `run_zeek` of Zeek.Report in use; `quote` is the verb %q.
pub mod Laws
use cute_pcap_mcp.Base.{
  ℕ, zero, suc, ◌+◌, ◌-◌, ◌*◌, ◌%◌, ◌/◌, ◌<◌, ◌≤◌, Bool, true, false, not, ◌&&◌, ◌||◌, List, [],
  ◌∷◌, ◌++◌, map, Option, none, some, ◌≡◌, ◌≢◌, refl, sym, ap, ◌∙◌, ◌↔◌, ◌⊎◌, inl, inr, ltb, leb,
  ◌==◌, if◌then◌else◌, All, All-append, arith, Bool-cases, Option-cases, some_eq, length, any, all,
  take, drop, get_elem?, length-append, length-take, not-true,
}
use mathlib.Core.Option.{none, some}
use cute_pcap_mcp.Base.Text.{Bytes, codes, eq_bytes, to_lower, trim_space, is_empty}
use cute_pcap_mcp.Base.Text.Atoi.{atoi, print_int}
use cute_pcap_mcp.Base.Text.Lines.{split}
use cute_pcap_mcp.Base.Int.{ℤ, pos, lt_ℤ}
use cute_pcap_mcp.Errors.{
  Err, Result, ok, failed, then_do, wrapped, missing_field_error, err_analyzer_failed,
  err_frame_out_of_range, err_frame_not_on_stream,
}
use cute_pcap_mcp.Artifact.{ArtifactInfo, print_path}
use cute_pcap_mcp.Config.{Config}
use cute_pcap_mcp.Command.{Call, Process, Run, run_command}
use cute_pcap_mcp.Capinfos.{count_packets}
use cute_pcap_mcp.Zeek.{Record, Log, value_of}
use cute_pcap_mcp.Zeek.Report.{ZeekReport}
use cute_pcap_mcp.Signals.Rows.{log_in}
use cute_pcap_mcp.Profile.{Net}
use cute_pcap_mcp.Explain.{FiveTuple, ExplainInput, is_stream_protocol, build_five_tuple_filter}
use cute_pcap_mcp.Explain.Frame.{parse_port, Stream, resolve_frame_number}

pub data Resolution : Type 0 where
  by_five_tuple by_zeek_uid by_frame_number : Resolution

-- `ResolvedSelector`
pub record ResolvedSelector : Type 0 where
  pub resolution : Resolution
  pub zeek_uid : Bytes
  pub five_tuple : Option FiveTuple
  pub frame_number : ℤ
  pub stream_id : Bytes
  pub display_filter : Bytes

abbrev pub zeek_tuple : Record → FiveTuple
zeek_tuple r = record {
  source_ip = trim_space (value_of (codes "id.orig_h") r);
  source_port = parse_port (trim_space (value_of (codes "id.orig_p") r));
  dest_ip = trim_space (value_of (codes "id.resp_h") r);
  dest_port = parse_port (trim_space (value_of (codes "id.resp_p") r));
  protocol = to_lower (trim_space (value_of (codes "proto") r));
}

abbrev pub has_uid : Bytes → Record → Bool
has_uid uid r = eq_bytes (trim_space (value_of (codes "uid") r)) uid

module _ (quote : Bytes → Bytes) where
  abbrev pub only_stream : Bytes → FiveTuple → Result FiveTuple
  only_stream uid ft =
      if is_stream_protocol ft.protocol
      then ok ft
      else failed (
          wrapped err_analyzer_failed (
            codes "zeek_uid "
            ++ uid
            ++ codes " resolved to protocol "
            ++ quote ft.protocol
            ++ codes "; only tcp/udp are supported"))

  -- The loop over the records of conn.log.
  unfoldable pub find_uid : Bytes → List Record → Result FiveTuple
  unfolding eq_bytes trim_space value_of parse_port to_lower
  find_uid uid [] =
      failed
        (wrapped err_analyzer_failed (codes "zeek_uid " ++ uid ++ codes " not found in conn.log"))
  find_uid uid (r ∷ rs) =
      let rest = find_uid uid rs in if has_uid uid r then only_stream uid (zeek_tuple r) else rest

  abbrev pub find_in : Bytes → Option Log → Result FiveTuple
  find_in uid none =
      failed
        (wrapped err_analyzer_failed (codes "zeek did not produce a conn.log for this capture"))
  find_in uid (some log) = find_uid uid log.records

  -- `resolveZeekUID`
  unfoldable pub resolve_zeek_uid : Result (ZeekReport × Bool) → Bytes → Result FiveTuple
  unfolding find_uid log_in then_do
  resolve_zeek_uid report uid =
      then_do report (λ (r, truncated). find_in uid (log_in r.logs (codes "conn")))

module _ {Addr : Type 0} (net : Net Addr) (quote : Bytes → Bytes) (program : Call → Option Process)
    (timeout : Bytes) (to_int : Bytes → Option ℤ) (zeek : Result (ZeekReport × Bool)) where
  abbrev pub from_tuple : FiveTuple → ResolvedSelector
  from_tuple ft = record {
    resolution = by_five_tuple;
    zeek_uid = [];
    five_tuple = some ft;
    frame_number = pos 0;
    stream_id = [];
    display_filter = build_five_tuple_filter net ft;
  }

  abbrev pub from_stream : ℤ → Stream → ResolvedSelector
  from_stream frame s = record {
    resolution = by_frame_number;
    zeek_uid = [];
    five_tuple = some s.five_tuple;
    frame_number = frame;
    stream_id = s.id;
    display_filter = s.protocol ++ codes ".stream eq " ++ s.id;
  }

  abbrev pub from_uid : Bytes → FiveTuple → ResolvedSelector
  from_uid uid ft = record {
    resolution = by_zeek_uid;
    zeek_uid = uid;
    five_tuple = some ft;
    frame_number = pos 0;
    stream_id = [];
    display_filter = build_five_tuple_filter net ft;
  }

  -- `resolveSelector`; its first result is the filter of the second.
  abbrev pub resolve_other : ArtifactInfo → ExplainInput → Result ResolvedSelector
  resolve_other source input =
      if lt_ℤ (pos 0) input.frame_number
      then then_do (resolve_frame_number program timeout to_int source input.frame_number)
          (λ s. ok (from_stream input.frame_number s))
      else if not (is_empty (trim_space input.zeek_uid))
      then then_do (resolve_zeek_uid quote zeek (trim_space input.zeek_uid))
          (λ ft. ok (from_uid (trim_space input.zeek_uid) ft))
      else failed (missing_field_error (codes "selector"))

  abbrev pub resolve_given :
      ArtifactInfo → ExplainInput → Option FiveTuple → Result ResolvedSelector
  resolve_given source input none = resolve_other source input
  resolve_given source input (some ft) = ok (from_tuple ft)

  unfoldable pub resolve_selector : ArtifactInfo → ExplainInput → Result ResolvedSelector
  unfolding build_five_tuple_filter resolve_frame_number resolve_zeek_uid then_do
      missing_field_error trim_space
  resolve_selector source input = resolve_given source input input.five_tuple
