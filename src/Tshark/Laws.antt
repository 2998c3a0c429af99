-- ===== src/Tshark/Laws.antt =====
-- Where a call of tshark fails, the evidence of the others stays.
use cute_pcap_mcp.Base.{
  Bool, true, false, ◌||◌, List, [], ◌∷◌, ◌++◌, map, Option, none, some, ◌≡◌, refl, sym, ap, ◌∙◌,
  ◌⊎◌, inl, inr, if◌then◌else◌, Bool-cases,
}
use mathlib.Core.Option.{none, some}
use mathlib.Core.Path.{subst}
use mathlib.Core.List.{append-nil, append_assoc}
use cute_pcap_mcp.Base.Text.{Bytes, codes}
use cute_pcap_mcp.Base.Int.{ℤ}
use cute_pcap_mcp.Errors.{Err, ok, failed, is, ToolError, classify, err_invalid_filter}
use cute_pcap_mcp.FilePaths.{FilePath}
use cute_pcap_mcp.Artifact.{Lookup, print_path}
use cute_pcap_mcp.Command.{Call, Process, run_tolerant}
use cute_pcap_mcp.Tshark.{
  PacketSummary, TsharkReport, empty_report, Marked, tshark_call, conversation_args,
  conversation_types, run_tshark, run_packet_summaries, add_table, run_conversations, Ran,
  with_packets, run_report,
}

-- What came of the call for one conversation: its name, the output, the mark of a cut capture, the error.
abbrev pub CallEnd : Type 0
CallEnd = Bytes × Bytes × Bool × Option Err

-- The tables of the calls that succeeded, under the names of their conversations, and the errors of the others.
pub tables_of : List CallEnd → List (Bytes × Bytes)
tables_of [] = []
tables_of ((conv, out, cut, none) ∷ rs) = (conv, out) ∷ tables_of rs
tables_of ((conv, out, cut, some e) ∷ rs) = tables_of rs

pub errors_of : List CallEnd → List ToolError
errors_of [] = []
errors_of ((conv, out, cut, none) ∷ rs) = errors_of rs
errors_of ((conv, out, cut, some e) ∷ rs) = classify e ∷ errors_of rs

-- Some call that succeeded met the end of a capture that was cut.
pub any_cut : List CallEnd → Bool
any_cut [] = false
any_cut ((conv, out, cut, none) ∷ rs) = cut || any_cut rs
any_cut ((conv, out, cut, some e) ∷ rs) = any_cut rs

abbrev pub rows_of : Marked (List PacketSummary) → List PacketSummary
rows_of (ok (ps, t)) = ps
rows_of (failed e) = []

abbrev pub error_of_rows : Marked (List PacketSummary) → List ToolError
error_of_rows (ok p) = []
error_of_rows (failed e) = classify e ∷ []

abbrev pub is_cut : Marked (List PacketSummary) → Bool
is_cut (ok (ps, t)) = t
is_cut (failed e) = false

or_assoc : (a b c : Bool) → ((a || b) || c) ≡ (a || (b || c))
or_assoc true b c = refl
or_assoc false b c = refl

or_false : (a : Bool) → (a || false) ≡ a
or_false true = refl
or_false false = refl

abbrev parts_of : TsharkReport → List (Bytes × Bytes) → List ToolError → Bool → TsharkReport × Bool
parts_of r cs es t = (record r { conversations = cs; errors = es }, t)

-- A report after some tables, from the one before.
abbrev after_tables : List CallEnd → TsharkReport × Bool → TsharkReport × Bool
after_tables rs (r, t) =
    parts_of r (r.conversations ++ tables_of rs) (r.errors ++ errors_of rs) (t || any_cut rs)

same_report :
    (r : TsharkReport) {t u : Bool} {cs ds : List (Bytes × Bytes)} {es fs : List ToolError}
    → cs ≡ ds
    → es ≡ fs
    → t ≡ u
    → parts_of r cs es t ≡ parts_of r ds fs u
same_report r a b c = cc

after_no_tables : (s : TsharkReport × Bool) → after_tables [] s ≡ s
unfolding tables_of errors_of any_cut
after_no_tables (r, t) =
    same_report r (append-nil r.conversations) (append-nil r.errors) (or_false t)

module _ (program : Call → Option Process) (timeout : Bytes) (max_bytes : ℤ)
    (read_csv : Bytes → Lookup (List (List Bytes))) (redact : Bytes → Bytes) where
  abbrev convs : FilePath → List Bytes → List Bytes → TsharkReport × Bool → TsharkReport × Bool
  convs = run_conversations program timeout max_bytes read_csv redact

  -- The run of tshark for one conversation table.
  abbrev pub table_end : FilePath → List Bytes → Bytes → CallEnd
  table_end path keylog conv =
      let r = run_tolerant program timeout max_bytes (record {
        name = codes "tshark";
        args =
            keylog
            ++ codes "-n"
              ∷ codes "-r"
              ∷ print_path path
              ∷ codes "-q"
              ∷ codes "-z"
              ∷ (codes "conv," ++ conv)
              ∷ [];
        env = [];
      }) in
      (conv, r.output.stdout, r.truncated, r.error)

  abbrev pub table_ends : FilePath → List Bytes → List CallEnd
  table_ends path keylog =
      map (table_end path keylog) (codes "eth" ∷ codes "ip" ∷ codes "tcp" ∷ codes "udp" ∷ [])

  after_tables-add_table :
      (conv out : Bytes) (cut : Bool) (error : Option Err) (rs : List CallEnd)
      (s : TsharkReport × Bool)
      → after_tables rs (add_table program timeout max_bytes read_csv redact conv out cut error s)
        ≡ after_tables ((conv, out, cut, error) ∷ rs) s
  unfolding tables_of errors_of any_cut
  after_tables-add_table conv out cut none rs (r, t) =
      same_report r (append_assoc r.conversations ((conv, out) ∷ []) (tables_of rs)) refl
        (or_assoc t cut (any_cut rs))
  after_tables-add_table conv out cut (some e) rs (r, t) =
      same_report r refl (append_assoc r.errors (classify e ∷ []) (errors_of rs)) refl

  run_conversations-after_tables :
      (path : FilePath) (keylog cs : List Bytes) (s : TsharkReport × Bool)
      → convs path keylog cs s ≡ after_tables (map (table_end path keylog) cs) s
  unfolding run_conversations
  run_conversations-after_tables path keylog [] s = sym (after_no_tables s)
  run_conversations-after_tables path keylog (c ∷ cs) s =
      let r =
        run_tolerant program timeout max_bytes (tshark_call keylog (conversation_args path c)) in
      run_conversations-after_tables path keylog cs (
        add_table program timeout max_bytes read_csv redact c r.output.stdout r.truncated r.error s)
      ∙ after_tables-add_table c r.output.stdout r.truncated r.error
          (map (table_end path keylog) cs) s

  -- A report whose first call gave a hierarchy, by what came of the other calls; an error that is returned is
  -- also the last of the report.
  pub record IsPartial (hierarchy : Bytes) (cut : Bool) (tables : List CallEnd)
      (packets : Marked (List PacketSummary)) (r : Ran) : Type 0 where
    pub kept : r.report.protocol_hierarchy ≡ hierarchy
    pub conversations : r.report.conversations ≡ tables_of tables
    pub packets_of : r.report.packets ≡ rows_of packets
    pub errors : r.report.errors ≡ errors_of tables ++ error_of_rows packets
    pub truncated : r.truncated ≡ ((cut || any_cut tables) || is_cut packets)
    pub returned :
        (r.error ≡ none)
        ⊎ ((e : Err) × (r.error ≡ some e)
            × (is e err_invalid_filter ≡ true)
            × ((before : List ToolError) × (r.report.errors ≡ before ++ classify e ∷ [])))

  with_packets-IsPartial :
      (hierarchy : Bytes) (cut : Bool) (tables : List CallEnd)
      (packets : Marked (List PacketSummary))
      → IsPartial hierarchy cut tables packets (
          with_packets program timeout max_bytes read_csv redact
            (after_tables tables (record empty_report { protocol_hierarchy = hierarchy }, cut))
            packets)
  with_packets-IsPartial hierarchy cut tables (ok (ps, truncated)) = record {
    kept = refl;
    conversations = refl;
    packets_of = refl;
    errors = sym (append-nil (errors_of tables));
    truncated = refl;
    returned = inl refl;
  }
  with_packets-IsPartial hierarchy cut tables (failed e) = record {
    kept = refl;
    conversations = refl;
    packets_of = refl;
    errors = refl;
    truncated = sym (or_false (cut || any_cut tables));
    returned = elim (Bool-cases (is e err_invalid_filter)) [
      | inl p ↦ inr (e, ap (λ b. if b then some e else none) p, p, (errors_of tables, refl))
      | inr p ↦ inl (ap (λ b. if b then some e else none) p)
    ];
  }

  -- Once tshark gives a protocol hierarchy it is kept. The conversations are the outputs of those of the four
  -- runs (eth, ip, tcp and udp) that succeeded, under their names, and the packets are the rows of the run for
  -- them; each run that failed has its error in the report, in this order, and the report is marked as
  -- truncated exactly if a run that succeeded was. The error that is returned is one of the filter, and in
  -- the report as well.
  pub run_report-IsPartial :
      (path : FilePath) (max_rows : ℤ) (filter : Bytes) (keylog : List Bytes) (hierarchy : Bytes)
      (t : Bool)
      → run_tshark program timeout max_bytes read_csv redact path keylog ≡ ok (hierarchy, t)
      → IsPartial hierarchy t
          (table_ends path keylog)
          (run_packet_summaries program timeout max_bytes read_csv redact path max_rows filter
            keylog)
          (run_report program timeout max_bytes read_csv redact path max_rows filter keylog)
  unfolding run_report
  run_report-IsPartial path max_rows filter keylog hierarchy t h =
      let start : TsharkReport × Bool =
        (record empty_report { protocol_hierarchy = hierarchy }, t) in
      let packets =
        run_packet_summaries program timeout max_bytes read_csv redact path max_rows filter
          keylog in
      rw (h) (
        subst
          (λ x.
            IsPartial hierarchy t (table_ends path keylog) packets
              (with_packets program timeout max_bytes read_csv redact x packets))
          (sym (run_conversations-after_tables path keylog conversation_types start))
          (with_packets-IsPartial hierarchy t (table_ends path keylog) packets))
