-- ===== src/Explain/Frame.antt =====
-- The stream of a frame: `resolveFrameNumber`, `frameOutOfRangeError` and `parsePort` of
-- internal/pcap/explain.go.
pub mod Laws
use cute_pcap_mcp.Base.{ℕ, not, List, [], ◌∷◌, ◌++◌, Option, none, some, if◌then◌else◌, get_elem?}
use mathlib.Core.Option.{none, some}
use cute_pcap_mcp.Base.Text.{Bytes, codes, trim_space, is_empty}
use cute_pcap_mcp.Base.Text.Atoi.{atoi, print_int}
use cute_pcap_mcp.Base.Text.Lines.{split}
use cute_pcap_mcp.Base.Int.{ℤ, pos, lt_ℤ}
use cute_pcap_mcp.Errors.{
  Err, Result, ok, failed, wrapped, err_frame_out_of_range, err_frame_not_on_stream,
}
use cute_pcap_mcp.Artifact.{ArtifactInfo, print_path}
use cute_pcap_mcp.Command.{Call, Process, run_command}
use cute_pcap_mcp.Capinfos.{count_packets}
use cute_pcap_mcp.Explain.{FiveTuple}

abbrev port_or : Option ℤ → ℤ
port_or none = pos 0
port_or (some n) = n

unfoldable pub parse_port : Bytes → ℤ
unfolding atoi
parse_port s = port_or (atoi s)

-- A row of the nine columns that tshark is asked for, without white space around them.
pub record Frame : Type 0 where
  pub tcp_stream : Bytes
  pub udp_stream : Bytes
  pub src_ip : Bytes
  pub dst_ip : Bytes
  pub tcp_src_port : Bytes
  pub tcp_dst_port : Bytes
  pub udp_src_port : Bytes
  pub udp_dst_port : Bytes
  pub protocol : Bytes

-- A column of a row that may be short.
unfoldable pub column : List Bytes → ℕ → Bytes
unfolding trim_space
column cols i = elim (get_elem? cols i) [ none ↦ [] | some c ↦ trim_space c ]

unfoldable pub frame_of : List Bytes → Frame
unfolding column
frame_of cols = record {
  tcp_stream = column cols 0;
  udp_stream = column cols 1;
  src_ip = column cols 2;
  dst_ip = column cols 3;
  tcp_src_port = column cols 4;
  tcp_dst_port = column cols 5;
  udp_src_port = column cols 6;
  udp_dst_port = column cols 7;
  protocol = column cols 8;
}

-- The stream of a frame: its number, its protocol and its five-tuple.
pub record Stream : Type 0 where
  pub id : Bytes
  pub protocol : Bytes
  pub five_tuple : FiveTuple

abbrev pub tuple_of : Frame → Bytes → Bytes → Bytes → FiveTuple
tuple_of f src dst protocol = record {
  source_ip = f.src_ip;
  source_port = parse_port src;
  dest_ip = f.dst_ip;
  dest_port = parse_port dst;
  protocol = protocol;
}

abbrev pub tcp_stream_of : Frame → Stream
tcp_stream_of f = record {
  id = f.tcp_stream;
  protocol = codes "tcp";
  five_tuple = tuple_of f f.tcp_src_port f.tcp_dst_port (codes "tcp");
}

abbrev pub udp_stream_of : Frame → Stream
udp_stream_of f = record {
  id = f.udp_stream;
  protocol = codes "udp";
  five_tuple = tuple_of f f.udp_src_port f.udp_dst_port (codes "udp");
}

abbrev pub not_on_stream : ℤ → Frame → Err
not_on_stream frame f = wrapped err_frame_not_on_stream (
    codes "frame "
    ++ print_int frame
    ++ codes " is on protocol "
    ++ (if is_empty f.protocol then codes "non-IP" else f.protocol)
    ++ codes "; only tcp/udp streams are supported")

unfoldable pub resolve_frame : ℤ → Frame → Result Stream
unfolding parse_port print_int
resolve_frame frame f =
    if not (is_empty f.tcp_stream)
    then ok (tcp_stream_of f)
    else if not (is_empty f.udp_stream)
    then ok (udp_stream_of f)
    else failed (not_on_stream frame f)

-- The lines without the empty ones at the end.
unfoldable pub drop_blank_end : List Bytes → List Bytes
drop_blank_end [] = []
drop_blank_end (l ∷ ls) = elim (drop_blank_end ls) [
  | [] ↦ if is_empty l then [] else l ∷ []
  | m ∷ ms ↦ l ∷ m ∷ ms
]

abbrev row_names : List Bytes
row_names =
    codes "tcp.stream"
    ∷ codes "udp.stream"
    ∷ codes "ip.src"
    ∷ codes "ip.dst"
    ∷ codes "tcp.srcport"
    ∷ codes "tcp.dstport"
    ∷ codes "udp.srcport"
    ∷ codes "udp.dstport"
    ∷ codes "_ws.col.Protocol"
    ∷ []

abbrev each_field : List Bytes → List Bytes
each_field [] = []
each_field (n ∷ ns) = codes "-e" ∷ n ∷ each_field ns

module _ (program : Call → Option Process) (timeout : Bytes) (to_int : Bytes → Option ℤ) where
  abbrev pub frame_call : ArtifactInfo → ℤ → Call
  frame_call source frame = record {
    name = codes "tshark";
    args =
        codes "-n"
        ∷ codes "-r"
        ∷ print_path source.path
        ∷ codes "-Y"
        ∷ (codes "frame.number == " ++ print_int frame)
        ∷ codes "-T"
        ∷ codes "fields"
        ∷ codes "-E"
        ∷ codes "header=n"
        ∷ codes "-E"
        ∷ codes "separator=/t"
        ∷ codes "-E"
        ∷ codes "occurrence=f"
        ∷ each_field row_names;
    env = [];
  }

  -- `frameOutOfRangeError`
  unfoldable pub frame_out_of_range_error : ArtifactInfo → ℤ → Err
  unfolding count_packets print_path print_int
  frame_out_of_range_error source frame =
      let max_frame = count_packets tt (λ s. tt) to_int program timeout (print_path source.path) in
      wrapped err_frame_out_of_range (
        if lt_ℤ (pos 0) max_frame
        then codes "frame "
          ++ print_int frame
          ++ codes " is past the end of the capture (pcap has frames 1.."
          ++ print_int max_frame
          ++ codes ")"
        else codes "frame " ++ print_int frame ++ codes " does not exist in the capture")

  unfoldable pub resolve_rows : ArtifactInfo → ℤ → List Bytes → Result Stream
  unfolding frame_out_of_range_error resolve_frame frame_of split
  resolve_rows source frame [] = failed (frame_out_of_range_error source frame)
  resolve_rows source frame (l ∷ ls) = resolve_frame frame (frame_of (split l (9 ∷ [])))

  abbrev pub resolve_run : ArtifactInfo → ℤ → Bytes → Option Err → Result Stream
  resolve_run source frame stdout (some e) = failed e
  resolve_run source frame stdout none =
      resolve_rows source frame (drop_blank_end (split stdout (b'\n' ∷ [])))

  -- `resolveFrameNumber`
  unfoldable pub resolve_frame_number : ArtifactInfo → ℤ → Result Stream
  unfolding run_command resolve_rows drop_blank_end split print_path print_int
  resolve_frame_number source frame =
      let r = run_command program timeout (pos 65536) (frame_call source frame) in
      resolve_run source frame r.output.stdout r.error
