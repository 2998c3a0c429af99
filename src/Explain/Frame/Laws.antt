-- ===== src/Explain/Frame/Laws.antt =====
-- The stream of a frame is the one of the row that tshark prints for it.
use cute_pcap_mcp.Base.{
  ℕ, true, false, List, [], ◌∷◌, ◌++◌, Option, none, some, ◌≡◌, ◌≢◌, refl, ap, ◌⊎◌, inl, inr,
  if◌then◌else◌, arith, Bool-cases, get_elem?,
}
use mathlib.Core.Option.{none, some}
use mathlib.Core.Path.{subst}
use cute_pcap_mcp.Base.Text.{Bytes, codes, eq_bytes, is_empty, trim_space}
use cute_pcap_mcp.Base.Text.Atoi.{print_int}
use cute_pcap_mcp.Base.Int.{ℤ, pos}
use cute_pcap_mcp.Errors.{Err, ok, failed}
use cute_pcap_mcp.Errors.Laws.{ok_eq}
use cute_pcap_mcp.Artifact.{ArtifactInfo, print_path}
use cute_pcap_mcp.Command.{Call, Process, run_command}
use cute_pcap_mcp.Explain.{FiveTuple, is_stream_protocol}
use cute_pcap_mcp.Explain.Frame.{
  parse_port, frame_call, drop_blank_end, frame_of, resolve_run, Stream, resolve_frame,
  resolve_rows, resolve_frame_number,
}
use cute_pcap_mcp.Base.Text.Lines.{split}

pub failed_not_ok : {A : Type 0} {a : A} {e : Err} → failed e ≢ ok a
failed_not_ok h = ground (arith, h)

-- A cell of the row of a frame, without white space around it.
abbrev pub cell : Bytes → ℕ → Bytes
cell row i = elim (get_elem? (split row (9 ∷ [])) i) [ none ↦ [] | some c ↦ trim_space c ]

-- A row with a TCP stream has its number in the first cell, and its ports in the cells 4 and 5.
abbrev pub IsTcpRow : Bytes → Bytes → FiveTuple → Type 0
IsTcpRow row id ft =
    (is_empty id ≡ false)
    × (id ≡ cell row 0)
    × (ft ≡ record {
      source_ip = cell row 2;
      source_port = parse_port (cell row 4);
      dest_ip = cell row 3;
      dest_port = parse_port (cell row 5);
      protocol = codes "tcp";
    })

-- A row with a UDP stream only has its number in the second cell, and its ports in the cells 6 and 7.
abbrev pub IsUdpRow : Bytes → Bytes → FiveTuple → Type 0
IsUdpRow row id ft =
    (is_empty (cell row 0) ≡ true)
    × (is_empty id ≡ false)
    × (id ≡ cell row 1)
    × (ft ≡ record {
      source_ip = cell row 2;
      source_port = parse_port (cell row 6);
      dest_ip = cell row 3;
      dest_port = parse_port (cell row 7);
      protocol = codes "udp";
    })

-- The call of tshark that asks for the row of one frame.
abbrev pub frame_query : ArtifactInfo → ℤ → Call
frame_query source frame = record {
  name = codes "tshark";
  args =
      codes "-n"
      ∷ codes "-r"
      ∷ print_path source.path
      ∷ codes "-Y"
      ∷ (codes "frame.number == " ++ print_int frame)
      ∷ codes "-T"
      ∷ codes "fields"
      ∷ codes "-E"
      ∷ codes "header=n"
      ∷ codes "-E"
      ∷ codes "separator=/t"
      ∷ codes "-E"
      ∷ codes "occurrence=f"
      ∷ codes "-e"
      ∷ codes "tcp.stream"
      ∷ codes "-e"
      ∷ codes "udp.stream"
      ∷ codes "-e"
      ∷ codes "ip.src"
      ∷ codes "-e"
      ∷ codes "ip.dst"
      ∷ codes "-e"
      ∷ codes "tcp.srcport"
      ∷ codes "-e"
      ∷ codes "tcp.dstport"
      ∷ codes "-e"
      ∷ codes "udp.srcport"
      ∷ codes "-e"
      ∷ codes "udp.dstport"
      ∷ codes "-e"
      ∷ codes "_ws.col.Protocol"
      ∷ [];
  env = [];
}

-- What the row of a frame says of its stream.
abbrev IsRowOf : Bytes → Stream → Type 0
IsRowOf row s =
    (s.five_tuple.protocol ≡ s.protocol)
    × (IsTcpRow row s.id s.five_tuple ⊎ IsUdpRow row s.id s.five_tuple)

resolve_frame-IsRowOf :
    (frame : ℤ) (row : Bytes) (s : Stream)
    → resolve_frame frame (frame_of (split row (9 ∷ []))) ≡ ok s
    → IsRowOf row s
unfolding resolve_frame frame_of
resolve_frame-IsRowOf frame row s h = elim (Bool-cases (is_empty (cell row 0))) [
  | inr p ↦ subst (IsRowOf row) (ok_eq (rw (p) at h)) (refl, inl (p, refl, refl))
  | inl p ↦ elim (Bool-cases (is_empty (cell row 1))) [
    | inr q ↦ subst (IsRowOf row) (ok_eq (rw (p, q) at h)) (refl, inr (p, q, refl, refl))
    | inl q ↦ absurd (failed_not_ok (rw (p, q) at h))
  ]
]

-- The first line stays when blank ones at the end are dropped.
first_of_drop :
    (l : Bytes) (dropped : List Bytes) (row : Bytes) (rows : List Bytes)
    → (elim dropped [ [] ↦ if is_empty l then [] else l ∷ [] | m ∷ ms ↦ l ∷ m ∷ ms ]) ≡ row ∷ rows
    → l ≡ row
first_of_drop l [] row rows e = elim (Bool-cases (is_empty l)) [
  | inl p ↦ absurd (ground (arith, rw (p) at e))
  | inr p ↦ ground (arith, rw (p) at e)
]
first_of_drop l (m ∷ ms) row rows e = ground (arith, e)

drop_blank_end-first :
    (ls : List Bytes) (row : Bytes) (rows : List Bytes)
    → drop_blank_end ls ≡ row ∷ rows
    → (more : List Bytes) × (ls ≡ row ∷ more)
unfolding drop_blank_end
drop_blank_end-first [] row rows e = absurd (ground (arith, e))
drop_blank_end-first (l ∷ ls) row rows e =
    (ls, ap (λ t. t ∷ ls) (first_of_drop l (drop_blank_end ls) row rows e))

module _ (program : Call → Option Process) (timeout : Bytes) (to_int : Bytes → Option ℤ) where
  -- The stream with this number and this five-tuple is that of a frame: it is in the first row that tshark
  -- prints for the frame.
  pub record IsOfFrame (source : ArtifactInfo) (frame : ℤ) (id : Bytes) (ft : FiveTuple)
      : Type 0 where
    pub row : Bytes
    pub more : List Bytes
    pub no_error : (run_command program timeout (pos 65536) (frame_query source frame)).error ≡ none
    pub first :
        split
          (run_command program timeout (pos 65536) (frame_query source frame)).output.stdout
          (b'\n' ∷ [])
        ≡ row ∷ more
    pub on_stream : IsTcpRow row id ft ⊎ IsUdpRow row id ft

  resolve_rows-IsRowOf :
      (source : ArtifactInfo) (frame : ℤ) (ls : List Bytes) (s : Stream)
      → resolve_rows program timeout to_int source frame ls ≡ ok s
      → (row : Bytes) × (rows : List Bytes) × (ls ≡ row ∷ rows) × IsRowOf row s
  unfolding resolve_rows
  resolve_rows-IsRowOf source frame [] s h = absurd (failed_not_ok h)
  resolve_rows-IsRowOf source frame (l ∷ ls) s h = (l, ls, refl, resolve_frame-IsRowOf frame l s h)

  resolve_run-IsRowOf :
      (source : ArtifactInfo) (frame : ℤ) (stdout : Bytes) (error : Option Err) (s : Stream)
      → resolve_run program timeout to_int source frame stdout error ≡ ok s
      → (error ≡ none)
        × ((row : Bytes) × (more : List Bytes) × (split stdout (b'\n' ∷ []) ≡ row ∷ more)
            × IsRowOf row s)
  resolve_run-IsRowOf source frame stdout (some e) s h = absurd (failed_not_ok h)
  resolve_run-IsRowOf source frame stdout none s h =
      let lines = split stdout (b'\n' ∷ []) in
      let (row, rows, e, r) = resolve_rows-IsRowOf source frame (drop_blank_end lines) s h in
      let (more, f) = drop_blank_end-first lines row rows e in (refl, (row, more, f, r))

  pub resolve_frame_number-IsOfFrame :
      (source : ArtifactInfo) (frame : ℤ) (s : Stream)
      → resolve_frame_number program timeout to_int source frame ≡ ok s
      → (s.five_tuple.protocol ≡ s.protocol) × IsOfFrame source frame s.id s.five_tuple
  unfolding resolve_frame_number
  resolve_frame_number-IsOfFrame source frame s h =
      let r =
        run_command program timeout (pos 65536) (frame_call program timeout to_int source frame) in
      let (e, (row, more, f, (p, t))) =
        resolve_run-IsRowOf source frame r.output.stdout r.error s h in
      (p, record { row = row; more = more; no_error = e; first = f; on_stream = t })

  pub IsOfFrame-stream :
      {source : ArtifactInfo} {frame : ℤ} {id : Bytes} {ft : FiveTuple}
      → IsOfFrame source frame id ft
      → (is_empty id ≡ false) × (is_stream_protocol ft.protocol ≡ true)
  unfolding eq_bytes
  IsOfFrame-stream f = elim f.on_stream [
    | inl (a, b, e) ↦ (a, rw (e) refl)
    | inr (z, a, b, e) ↦ (a, rw (e) refl)
  ]
