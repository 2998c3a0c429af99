-- ===== src/Explain/Resolve/Laws.antt =====
-- A Zeek UID is resolved to the first record of conn.log that has it.
use cute_pcap_mcp.Base.{
  Bool, true, false, List, [], ◌∷◌, ◌++◌, Option, none, some, ◌≡◌, refl, sym, ap, inl, inr, All,
  Bool-cases,
}
use mathlib.Core.Option.{none, some}
use mathlib.Core.Path.{subst}
use cute_pcap_mcp.Base.Text.{Bytes, codes}
use cute_pcap_mcp.Errors.{Result, ok}
use cute_pcap_mcp.Errors.Laws.{then_do-ok, ok_eq}
use cute_pcap_mcp.Zeek.{Record, Log}
use cute_pcap_mcp.Zeek.Report.{ZeekReport}
use cute_pcap_mcp.Signals.Rows.{log_in, records_of}
use cute_pcap_mcp.Explain.{FiveTuple, is_stream_protocol}
use cute_pcap_mcp.Explain.Resolve.{
  find_in, only_stream, zeek_tuple, has_uid, find_uid, resolve_zeek_uid,
}
use cute_pcap_mcp.Explain.Frame.Laws.{failed_not_ok}

-- The first record with the UID.
pub record IsFirst (uid : Bytes) (rs : List Record) (ft : FiveTuple) : Type 0 where
  pub before : List Record
  pub found : Record
  pub after : List Record
  pub split_at : rs ≡ before ++ found ∷ after
  pub others : All (λ r. has_uid uid r ≡ false) before
  pub uid_of : has_uid uid found ≡ true
  pub tuple : ft ≡ zeek_tuple found
  pub stream : is_stream_protocol ft.protocol ≡ true

module _ (quote : Bytes → Bytes) where
  only_stream-ok :
      (uid : Bytes) (t ft : FiveTuple)
      → only_stream quote uid t ≡ ok ft
      → (ft ≡ t) × (is_stream_protocol ft.protocol ≡ true)
  only_stream-ok uid t ft h = elim (Bool-cases (is_stream_protocol t.protocol)) [
    | inl p ↦
        let e : t ≡ ft = ok_eq (rw (p) at h) in
        (sym e, subst (λ x. is_stream_protocol x.protocol ≡ true) e p)
    | inr p ↦ absurd (failed_not_ok (rw (p) at h))
  ]

  find_uid-IsFirst :
      (uid : Bytes) (rs : List Record) (ft : FiveTuple)
      → find_uid quote uid rs ≡ ok ft
      → IsFirst uid rs ft
  unfolding find_uid
  find_uid-IsFirst uid [] ft h = absurd (failed_not_ok h)
  find_uid-IsFirst uid (r ∷ rs) ft h = elim (Bool-cases (has_uid uid r)) [
    | inl p ↦
        let (e, q) = only_stream-ok uid (zeek_tuple r) ft (rw (p) at h) in
        record {
          before = [];
          found = r;
          after = rs;
          split_at = refl;
          others = tt;
          uid_of = p;
          tuple = e;
          stream = q;
        }
    | inr p ↦
        let f = find_uid-IsFirst uid rs ft (rw (p) at h) in
        record {
          before = r ∷ f.before;
          found = f.found;
          after = f.after;
          split_at = ap (λ t. r ∷ t) f.split_at;
          others = (p, f.others);
          uid_of = f.uid_of;
          tuple = f.tuple;
          stream = f.stream;
        }
  ]

  find_in-IsFirst :
      (uid : Bytes) (log : Option Log) (ft : FiveTuple)
      → find_in quote uid log ≡ ok ft
      → IsFirst uid (records_of log) ft
  find_in-IsFirst uid none ft h = absurd (failed_not_ok h)
  find_in-IsFirst uid (some log) ft h = find_uid-IsFirst uid log.records ft h

  pub resolve_zeek_uid-IsFirst :
      (report : Result (ZeekReport × Bool)) (uid : Bytes) (ft : FiveTuple)
      → resolve_zeek_uid quote report uid ≡ ok ft
      → (r : ZeekReport) × (truncated : Bool) × (report ≡ ok (r, truncated))
        × IsFirst uid (records_of (log_in r.logs (codes "conn"))) ft
  unfolding resolve_zeek_uid
  resolve_zeek_uid-IsFirst report uid ft h =
      let ((r, t), e, k) = then_do-ok _ _ h in
      (r, t, e, find_in-IsFirst uid (log_in r.logs (codes "conn")) ft k)
