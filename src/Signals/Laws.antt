-- ===== src/Signals/Laws.antt =====
-- The connections that a summary shows are those with the most bytes.
use cute_pcap_mcp.Base.{
  false, List, ◌++◌, map, Option, ◌≡◌, sym, ap, ◌∙◌, All, arith, length, all, take, drop,
  length-take,
}
use mathlib.Core.List.{Perm}
use mathlib.Core.Path.{subst}
use Prim.Native.Nat.{min}
use cute_pcap_mcp.Base.{take-append-drop}
use cute_pcap_mcp.Base.Sort.{
  sort, IsSorted, IsWeakOrder, sort-perm, sort-IsSorted, IsSorted-append, length-sort,
}
use cute_pcap_mcp.Base.Text.{Bytes}
use cute_pcap_mcp.Base.Int.{ℤ}
use cute_pcap_mcp.Zeek.{Log}
use cute_pcap_mcp.Signals.{Connection, summary_record_limit}
use cute_pcap_mcp.Signals.Rows.{has_more_bytes, records_of, connection_of, summarize_connections}

has_more_bytes-IsWeakOrder : IsWeakOrder has_more_bytes
has_more_bytes-IsWeakOrder = record {
  asym = λ a b h. ground (arith, h);
  trans = λ a b c h k. ground (arith, h, k);
}

-- The connections that are shown, of all that the log has.
pub record IsTop (all shown : List Connection) : Type 0 where
  pub omitted : List Connection
  pub perm : Perm (shown ++ omitted) all
  pub sorted : IsSorted has_more_bytes shown
  pub above : All (λ c. All (λ o. has_more_bytes o c ≡ false) omitted) shown
  pub size : length shown ≡ min summary_record_limit (length all)

sort-IsTop :
    (all : List Connection) → IsTop all (take summary_record_limit (sort has_more_bytes all))
sort-IsTop all =
    let s = sort has_more_bytes all in
    let n = summary_record_limit in
    let whole = take-append-drop n s in
    let parts = IsSorted-append has_more_bytes (take n s) (drop n s) (
      subst (IsSorted has_more_bytes) (sym whole) (sort-IsSorted has_more_bytes-IsWeakOrder all)) in
    record {
      omitted = drop n s;
      perm = subst (λ t. Perm t all) (sym whole) (sort-perm has_more_bytes all);
      sorted = parts.0;
      above = parts.1;
      size = length-take n s ∙ ap (min n) (length-sort has_more_bytes all);
    }

-- The summary shows 25 connections of the log or all of them, in the order of their bytes, and no connection
-- that it leaves out has more bytes than one that it shows.
pub summarize_connections-IsTop :
    (parse_float : Bytes → Option ℤ) (log : Option Log)
    → IsTop
        (map (connection_of parse_float) (records_of log))
        (summarize_connections parse_float log)
unfolding summarize_connections
summarize_connections-IsTop parse_float log =
    sort-IsTop (map (connection_of parse_float) (records_of log))
