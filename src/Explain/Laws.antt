-- ===== src/Explain/Laws.antt =====
-- A valid input is resolved to one TCP or UDP connection and a filter for it.
use cute_pcap_mcp.Base.{
  Bool, true, ◌++◌, Option, none, some, ◌≡◌, refl, sym, ap, inl, inr, Bool-cases,
}
use mathlib.Core.Option.{none, some}
use mathlib.Core.Path.{subst}
use cute_pcap_mcp.Base.Text.{Bytes, codes, eq_bytes, eq_bytes_iff, to_lower, trim_space, is_empty}
use cute_pcap_mcp.Base.Int.{ℤ, pos, lt_ℤ}
use cute_pcap_mcp.Errors.{Result, ok}
use cute_pcap_mcp.Errors.Laws.{then_do-ok, ok_eq}
use cute_pcap_mcp.Artifact.{ArtifactInfo}
use cute_pcap_mcp.Command.{Call, Process}
use cute_pcap_mcp.Zeek.Report.{ZeekReport}
use cute_pcap_mcp.Signals.Rows.{log_in, records_of}
use cute_pcap_mcp.Profile.{Net}
use cute_pcap_mcp.Explain.{
  FiveTuple, ExplainInput, is_stream_protocol, build_five_tuple_filter, validate_explain_input,
}
use cute_pcap_mcp.Explain.Valid.{IsChecked, validate_explain_input-IsSelected}
use cute_pcap_mcp.Explain.Frame.{resolve_frame_number}
use cute_pcap_mcp.Explain.Resolve.{
  Resolution, by_five_tuple, by_zeek_uid, by_frame_number, ResolvedSelector, resolve_zeek_uid,
  resolve_selector, resolve_given, resolve_other, from_uid, from_stream,
}
use cute_pcap_mcp.Explain.Resolve.Laws.{IsFirst, resolve_zeek_uid-IsFirst}
use cute_pcap_mcp.Explain.Frame.Laws.{
  failed_not_ok, IsOfFrame, resolve_frame_number-IsOfFrame, IsOfFrame-stream,
}

lower_stream : (p : Bytes) → is_stream_protocol p ≡ true → is_stream_protocol (to_lower p) ≡ true
unfolding to_lower eq_bytes
lower_stream p h = elim (Bool-cases (eq_bytes p (codes "tcp"))) [
  | inl e ↦ rw ((eq_bytes_iff p (codes "tcp")).0 e) refl
  | inr e ↦ rw ((eq_bytes_iff p (codes "udp")).0 (rw (e) at h)) refl
]

module _ {Addr : Type 0} (net : Net Addr) (quote : Bytes → Bytes) (program : Call → Option Process)
    (timeout : Bytes) (to_int : Bytes → Option ℤ) (zeek : Result (ZeekReport × Bool)) where
  -- How each kind of selector comes to its connection and its filter.
  pub IsFound : ArtifactInfo → ExplainInput → ResolvedSelector → FiveTuple → Resolution → Type 0
  IsFound source input s ft by_five_tuple =
      (input.five_tuple ≡ some ft) × (s.display_filter ≡ build_five_tuple_filter net ft)
  IsFound source input s ft by_zeek_uid =
      ((r : ZeekReport) × (truncated : Bool) × (zeek ≡ ok (r, truncated))
        × IsFirst (trim_space input.zeek_uid) (records_of (log_in r.logs (codes "conn"))) ft)
      × (s.display_filter ≡ build_five_tuple_filter net ft)
  IsFound source input s ft by_frame_number =
      (s.frame_number ≡ input.frame_number)
      × IsOfFrame program timeout to_int source input.frame_number s.stream_id ft
      × (s.display_filter ≡ ft.protocol ++ codes ".stream eq " ++ s.stream_id)

  pub record IsResolved (source : ArtifactInfo) (input : ExplainInput) (s : ResolvedSelector)
      : Type 0 where
    pub tuple : FiveTuple
    pub is_tuple : s.five_tuple ≡ some tuple
    pub stream : is_stream_protocol (to_lower tuple.protocol) ≡ true
    pub found : IsFound source input s tuple s.resolution

  other-IsResolved :
      (source : ArtifactInfo) (input : ExplainInput) (s : ResolvedSelector)
      → resolve_other net quote program timeout to_int zeek source input ≡ ok s
      → IsResolved source input s
  unfolding IsFound
  other-IsResolved source input s h = elim (Bool-cases (lt_ℤ (pos 0) input.frame_number)) [
    | inl p ↦
        let (t, a, e) =
          then_do-ok (resolve_frame_number program timeout to_int source input.frame_number)
            (λ t. ok (from_stream net quote program timeout to_int zeek input.frame_number t))
            (rw (p) at h) in
        let (d, b) =
          resolve_frame_number-IsOfFrame program timeout to_int source input.frame_number t a in
        let (id, c) = IsOfFrame-stream program timeout to_int b in
        subst (IsResolved source input) (ok_eq e) (record {
          tuple = t.five_tuple;
          is_tuple = refl;
          stream = lower_stream t.five_tuple.protocol c;
          found = (refl, b, ap (λ x. x ++ codes ".stream eq " ++ t.id) (sym d));
        })
    | inr p ↦ elim (Bool-cases (is_empty (trim_space input.zeek_uid))) [
      | inl q ↦ absurd (failed_not_ok (rw (p, q) at h))
      | inr q ↦
          let uid = trim_space input.zeek_uid in
          let (ft, a, e) =
            then_do-ok (resolve_zeek_uid quote zeek uid)
              (λ ft. ok (from_uid net quote program timeout to_int zeek uid ft)) (rw (p, q) at h) in
          let (r, t, b, f) = resolve_zeek_uid-IsFirst quote zeek uid ft a in
          subst (IsResolved source input) (ok_eq e) (record {
            tuple = ft;
            is_tuple = refl;
            stream = lower_stream ft.protocol f.stream;
            found = ((r, t, b, f), refl);
          })
    ]
  ]

  given-IsResolved :
      (source : ArtifactInfo) (input : ExplainInput) (s : ResolvedSelector)
      (given o : Option FiveTuple)
      → IsChecked net given o
      → input.five_tuple ≡ o
      → resolve_given net quote program timeout to_int zeek source input o ≡ ok s
      → IsResolved source input s
  unfolding IsFound
  given-IsResolved source input s given none c e h = other-IsResolved source input s h
  given-IsResolved source input s none (some ft) c e h = absurd c
  given-IsResolved source input s (some g) (some ft) c e h =
      subst (IsResolved source input) (ok_eq h) (record {
        tuple = ft;
        is_tuple = refl;
        stream =
            subst (λ t. is_stream_protocol (to_lower t.protocol) ≡ true) (sym c.rewritten) c.stream;
        found = (e, refl);
      })

  -- A selector of a valid input that is resolved gives a TCP or UDP five-tuple: the given one; that of the
  -- first record of conn.log with the UID; or that of the stream in the first row that tshark prints for
  -- the frame, with the number of the stream, the addresses, and the ports of its protocol. The filter is made
  -- of that five-tuple, or of the protocol and the number of the stream.
  pub resolve_selector-IsResolved :
      (source : ArtifactInfo) (given input : ExplainInput) (s : ResolvedSelector)
      → validate_explain_input net given ≡ ok input
      → resolve_selector net quote program timeout to_int zeek source input ≡ ok s
      → IsResolved source input s
  unfolding resolve_selector
  resolve_selector-IsResolved source given input s valid h =
      let selected = validate_explain_input-IsSelected net given input valid in
      given-IsResolved source input s given.five_tuple input.five_tuple selected.checked refl h
