-- ===== src/Config/Bounds.antt =====
-- The range of every analysis limit.
use mathlib.Core.Path.{subst}
use cute_pcap_mcp.Base.{◌*◌, Bool, true, false, not, ◌||◌, ◌≡◌, refl, if◌then◌else◌, arith}
use cute_pcap_mcp.Base.Int.{ℤ, pos, lt_ℤ, eq_ℤ, eq_ℤ_iff, ◌≤ℤ◌}
use cute_pcap_mcp.Config.{
  out_of_bounds, ConfigError, Result, ok, failed, then_do, require, Limits, at_least, between,
  normalize_limits, mebibyte,
}

pub then_do-ok {ℓ} :
    {A B : Type ℓ} (r : Result A) (k : A → Result B) {b : B}
    → then_do r k ≡ ok b
    → (a : A) × (r ≡ ok a) × (k a ≡ ok b)
unfolding then_do
then_do-ok (ok a) k e = (a, refl, e)
then_do-ok (failed x) k e = cc

pub require-ok {ℓ} :
    {A : Type ℓ} (b : Bool) (x : ConfigError) (r : Result A) {a : A}
    → require b x r ≡ ok a
    → (b ≡ true) × (r ≡ ok a)
unfolding require
require-ok true x r e = (refl, e)
require-ok false x r e = cc

pub ok_eq : {A : Type 0} {a b : A} → ok a ≡ ok b → a ≡ b
ok_eq e = cc

abbrev or_default : ℤ → ℤ → ℤ
or_default default v = if eq_ℤ v (pos 0) then default else v

between-ok :
    (default low high v : ℤ) {w : ℤ} → between default low high v ≡ ok w → (low ≤ℤ w) × (w ≤ℤ high)
unfolding between
between-ok default low high v {w} e =
    let (h, same) =
      require-ok (not (lt_ℤ (or_default default v) low || lt_ℤ high (or_default default v)))
        out_of_bounds (ok (or_default default v)) e in
    let eq = ok_eq same in subst (λ x. (low ≤ℤ x) × (x ≤ℤ high)) eq (ground arith, ground arith)

at_least-ok : (default low v : ℤ) {w : ℤ} → at_least default low v ≡ ok w → low ≤ℤ w
unfolding at_least
at_least-ok default low v {w} e =
    let (h, same) =
      require-ok (not (lt_ℤ (or_default default v) low)) out_of_bounds (ok (or_default default v))
        e in
    subst (λ x. low ≤ℤ x) (ok_eq same) (ground arith)

-- A value in a range of positive numbers is kept.
between-keeps :
    (default low high w : ℤ)
    → pos 1 ≤ℤ low
    → low ≤ℤ w
    → w ≤ℤ high
    → between default low high w ≡ ok w
unfolding between require
between-keeps default low high w a b c = ground (arith, eq_ℤ_iff w (pos 0))

at_least-keeps : (default low w : ℤ) → pos 1 ≤ℤ low → low ≤ℤ w → at_least default low w ≡ ok w
unfolding at_least require
at_least-keeps default low w a b = ground (arith, eq_ℤ_iff w (pos 0))

abbrev pub IsIn : ℤ → ℤ → ℤ → Type 0
IsIn low high v = (low ≤ℤ v) × (v ≤ℤ high)

pub record IsBounded (l : Limits) : Type 0 where
  pub command_timeout_seconds : IsIn (pos 1) (pos 120) l.command_timeout_seconds
  pub max_stdout_bytes : IsIn (pos 1024) (pos 5000000) l.max_stdout_bytes
  pub max_packet_rows : IsIn (pos 1) (pos 10000) l.max_packet_rows
  pub max_ascii_strings : IsIn (pos 1) (pos 10000) l.max_ascii_strings
  pub max_ascii_bytes : IsIn (pos 1024) (pos 5000000) l.max_ascii_bytes
  pub max_zeek_records_per_log : IsIn (pos 1) (pos 10000) l.max_zeek_records_per_log
  pub max_pcap_bytes : pos 65536 ≤ℤ l.max_pcap_bytes
  pub max_concurrent_analyses : IsIn (pos 1) (pos 64) l.max_concurrent_analyses
  pub tmp_disk_budget_bytes : pos mebibyte ≤ℤ l.tmp_disk_budget_bytes
  pub output_disk_budget_bytes : pos mebibyte ≤ℤ l.output_disk_budget_bytes

-- Accepted limits are in their ranges.
pub normalize_limits-IsBounded : (raw l : Limits) → normalize_limits raw ≡ ok l → IsBounded l
unfolding normalize_limits
normalize_limits-IsBounded raw l e =
    let (a, a1, a2) = then_do-ok _ _ e in
    let (b, b1, b2) = then_do-ok _ _ a2 in
    let (c, c1, c2) = then_do-ok _ _ b2 in
    let (d, d1, d2) = then_do-ok _ _ c2 in
    let (e, e1, e2) = then_do-ok _ _ d2 in
    let (f, f1, f2) = then_do-ok _ _ e2 in
    let (g, g1, g2) = then_do-ok _ _ f2 in
    let (h, h1, h2) = then_do-ok _ _ g2 in
    let (i, i1, i2) = then_do-ok _ _ h2 in
    let (j, j1, j2) = then_do-ok _ _ i2 in
    let same = ok_eq j2 in
    subst IsBounded same (record {
      command_timeout_seconds =
          between-ok (pos 20) (pos 1) (pos 120) raw.command_timeout_seconds a1;
      max_stdout_bytes = between-ok (pos 200000) (pos 1024) (pos 5000000) raw.max_stdout_bytes b1;
      max_packet_rows = between-ok (pos 200) (pos 1) (pos 10000) raw.max_packet_rows c1;
      max_ascii_strings = between-ok (pos 200) (pos 1) (pos 10000) raw.max_ascii_strings d1;
      max_ascii_bytes = between-ok (pos 200000) (pos 1024) (pos 5000000) raw.max_ascii_bytes e1;
      max_zeek_records_per_log =
          between-ok (pos 100) (pos 1) (pos 10000) raw.max_zeek_records_per_log f1;
      max_pcap_bytes = at_least-ok (pos (1024 * mebibyte)) (pos 65536) raw.max_pcap_bytes g1;
      max_concurrent_analyses = between-ok (pos 2) (pos 1) (pos 64) raw.max_concurrent_analyses h1;
      tmp_disk_budget_bytes =
          at_least-ok (pos (512 * mebibyte)) (pos mebibyte) raw.tmp_disk_budget_bytes i1;
      output_disk_budget_bytes =
          at_least-ok (pos (256 * mebibyte)) (pos mebibyte) raw.output_disk_budget_bytes j1;
    })

-- Limits in their ranges are accepted as they are, so the normalization is idempotent.
pub IsBounded-normalize_limits : (l : Limits) → IsBounded l → normalize_limits l ≡ ok l
unfolding normalize_limits then_do
IsBounded-normalize_limits l h =
    rw
      (
        between-keeps (pos 20) (pos 1) (pos 120) l.command_timeout_seconds (omega arith)
            h.command_timeout_seconds.0 h.command_timeout_seconds.1,
        between-keeps (pos 200000) (pos 1024) (pos 5000000) l.max_stdout_bytes (omega arith)
            h.max_stdout_bytes.0 h.max_stdout_bytes.1,
        between-keeps (pos 200) (pos 1) (pos 10000) l.max_packet_rows (omega arith)
            h.max_packet_rows.0 h.max_packet_rows.1,
        between-keeps (pos 200) (pos 1) (pos 10000) l.max_ascii_strings (omega arith)
            h.max_ascii_strings.0 h.max_ascii_strings.1,
        between-keeps (pos 200000) (pos 1024) (pos 5000000) l.max_ascii_bytes (omega arith)
            h.max_ascii_bytes.0 h.max_ascii_bytes.1,
        between-keeps (pos 100) (pos 1) (pos 10000) l.max_zeek_records_per_log (omega arith)
            h.max_zeek_records_per_log.0 h.max_zeek_records_per_log.1,
        at_least-keeps (pos (1024 * mebibyte)) (pos 65536) l.max_pcap_bytes (omega arith)
            h.max_pcap_bytes,
        between-keeps (pos 2) (pos 1) (pos 64) l.max_concurrent_analyses (omega arith)
            h.max_concurrent_analyses.0 h.max_concurrent_analyses.1,
        at_least-keeps (pos (512 * mebibyte)) (pos mebibyte) l.tmp_disk_budget_bytes (omega arith)
            h.tmp_disk_budget_bytes,
        at_least-keeps (pos (256 * mebibyte)) (pos mebibyte) l.output_disk_budget_bytes
            (omega arith) h.output_disk_budget_bytes,
      )
      refl
