-- ===== src/Keylog/Accepted.antt =====
-- The keylog path that is handed on, and the file behind it.
use cute_pcap_mcp.Base.{
  ◌<◌, true, false, Option, none, some, ◌≡◌, refl, ◌↔◌, inl, inr, ◌==◌, All, arith, Bool-cases,
  some_eq,
}
use mathlib.Core.Path.{subst}
use mathlib.Core.Option.{none, some}
use cute_pcap_mcp.Base.Text.{Bytes, trim_space, is_empty}
use cute_pcap_mcp.Base.Text.Lines.{raw_lines}
use cute_pcap_mcp.FilePaths.{FilePath, path_contains}
use cute_pcap_mcp.Config.{Config}
use cute_pcap_mcp.Artifact.{broken, not_exist, Lookup, found, FileInfo}
use cute_pcap_mcp.Keylog.{
  validate_file, in_dir, after_links, resolve_keylog, after_absolute, after_stat, Summary,
  judge_summary,
}
use cute_pcap_mcp.Keylog.Laws.{scan_iff, Short, HasSecret}

judge_summary-path :
    (p real : FilePath) (o : Option Summary)
    → (judge_summary p o).path ≡ some real
    → (p ≡ real) × ((t : Summary) × (o ≡ some t) × (0 < t.usable_secret_lines))
unfolding judge_summary
judge_summary-path p real none e = absurd (cc)
judge_summary-path p real (some t) e = elim (Bool-cases (t.usable_secret_lines == 0)) [
  | inl z ↦ elim (Bool-cases (t.non_comment_lines == 0)) [
    | inl y ↦ absurd (cc (rw (z, y) at e))
    | inr y ↦ absurd (cc (rw (z, y) at e))
  ]
  | inr z ↦ (some_eq (rw z at e), (t, refl, ground (arith, z)))
]

judge_summary-accepts :
    (p : FilePath) (t : Summary)
    → 0 < t.usable_secret_lines
    → (judge_summary p (some t)).path ≡ some p
unfolding judge_summary
judge_summary-accepts p t h =
    let z : (t.usable_secret_lines == 0) ≡ false = ground (arith, h) in rw z refl

-- What stands behind a path that is handed on: a link-free regular file inside the configured directory,
-- with lines that fit in the buffer of the scanner, one of which holds a secret.
module _ (absolute : Bytes → Lookup FilePath) (eval_symlinks : FilePath → Lookup FilePath)
    (stat : FilePath → Lookup FileInfo) (read : FilePath → Lookup Bytes) where
  pub record IsAccepted (raw : Bytes) (cfg : Config) (real : FilePath) : Type 0 where
    pub dir : FilePath
    pub abs : FilePath
    pub info : FileInfo
    pub content : Bytes
    pub asked : is_empty (trim_space raw) ≡ false
    pub configured : cfg.workspace.keylog_dir ≡ some dir
    pub resolved : absolute raw ≡ found abs
    pub linked : eval_symlinks abs ≡ found real
    pub inside : path_contains dir real ≡ true
    pub stated : stat real ≡ found info
    pub regular : info.is_regular ≡ true
    pub given : read real ≡ found content
    pub short : All Short (raw_lines content)
    pub secret : HasSecret (raw_lines content)

  module _ (raw : Bytes) (cfg : Config) (asked : is_empty (trim_space raw) ≡ false)
      (dir abs : FilePath) (configured : cfg.workspace.keylog_dir ≡ some dir)
      (resolved : absolute raw ≡ found abs) where
    accept_read :
        (p real : FilePath) (info : FileInfo) (o : Lookup Bytes)
        → eval_symlinks abs ≡ found p
        → path_contains dir p ≡ true
        → stat p ≡ found info
        → info.is_regular ≡ true
        → read p ≡ o
        → (judge_summary p (validate_file o)).path ≡ some real
        → IsAccepted raw cfg real
    unfolding validate_file
    accept_read p real info (found content) l i s r g e =
        let (same, (t, scanned, positive)) = judge_summary-path p real _ e in
        let (short, secret) = (scan_iff (raw_lines content)).0 (t, scanned, positive) in
        subst (IsAccepted raw cfg) same (record {
          dir = dir;
          abs = abs;
          info = info;
          content = content;
          asked = asked;
          configured = configured;
          resolved = resolved;
          linked = l;
          inside = i;
          stated = s;
          regular = r;
          given = g;
          short = short;
          secret = secret;
        })
    accept_read p real info not_exist l i s r g e =
        let (same, (t, scanned, positive)) = judge_summary-path p real none e in absurd (cc)
    accept_read p real info (broken text) l i s r g e =
        let (same, (t, scanned, positive)) = judge_summary-path p real none e in absurd (cc)

    accept_stat :
        (p real : FilePath) (o : Lookup FileInfo)
        → eval_symlinks abs ≡ found p
        → path_contains dir p ≡ true
        → stat p ≡ o
        → (after_stat absolute eval_symlinks stat read p o).path ≡ some real
        → IsAccepted raw cfg real
    accept_stat p real not_exist l i s e = absurd (cc)
    accept_stat p real (broken text) l i s e = absurd (cc)
    accept_stat p real (found info) l i s e = elim (Bool-cases info.is_regular) [
      | inl r ↦ accept_read p real info (read p) l i s r refl (rw r at e)
      | inr r ↦ absurd (cc (rw r at e))
    ]

    accept_links :
        (real : FilePath) (o : Lookup FilePath)
        → eval_symlinks abs ≡ o
        → (after_links absolute eval_symlinks stat read dir o).path ≡ some real
        → IsAccepted raw cfg real
    accept_links real not_exist l e = absurd (cc)
    accept_links real (broken text) l e = absurd (cc)
    accept_links real (found p) l e = elim (Bool-cases (path_contains dir p)) [
      | inl i ↦ accept_stat p real (stat p) l i refl (rw i at e)
      | inr i ↦ absurd (cc (rw i at e))
    ]

  accept_absolute :
      (raw : Bytes) (cfg : Config) (dir real : FilePath) (o : Lookup FilePath)
      → is_empty (trim_space raw) ≡ false
      → cfg.workspace.keylog_dir ≡ some dir
      → absolute raw ≡ o
      → (after_absolute absolute eval_symlinks stat read dir o).path ≡ some real
      → IsAccepted raw cfg real
  accept_absolute raw cfg dir real (found abs) a c r e =
      accept_links raw cfg a dir abs c r real (eval_symlinks abs) refl e
  accept_absolute raw cfg dir real not_exist a c r e = absurd (cc)
  accept_absolute raw cfg dir real (broken text) a c r e = absurd (cc)

  accept_dir :
      (raw : Bytes) (cfg : Config) (real : FilePath) (o : Option FilePath)
      → is_empty (trim_space raw) ≡ false
      → cfg.workspace.keylog_dir ≡ o
      → (in_dir absolute eval_symlinks stat read raw o).path ≡ some real
      → IsAccepted raw cfg real
  accept_dir raw cfg real none a c e = absurd (cc)
  accept_dir raw cfg real (some dir) a c e =
      accept_absolute raw cfg dir real (absolute raw) a c refl e

  accepted_resolves :
      (raw : Bytes) (cfg : Config) (real : FilePath)
      → IsAccepted raw cfg real
      → (resolve_keylog absolute eval_symlinks stat read raw cfg).path ≡ some real
  unfolding resolve_keylog validate_file
  accepted_resolves raw cfg real h =
      let (t, scanned, positive) = (scan_iff (raw_lines h.content)).1 (h.short, h.secret) in
      rw
        (
          h.asked, h.configured, h.resolved, h.linked, h.inside, h.stated, h.regular, h.given,
          scanned,
        )
        (judge_summary-accepts real t positive)

  -- A keylog path is handed to the analyzers exactly if it is the link-free path of a regular file inside
  -- the configured directory, whose lines fit in the buffer and one of whose lines holds a secret.
  pub resolve_keylog_iff :
      (raw : Bytes) (cfg : Config) (real : FilePath)
      → ((resolve_keylog absolute eval_symlinks stat read raw cfg).path ≡ some real)
        ↔ IsAccepted raw cfg real
  unfolding resolve_keylog
  resolve_keylog_iff raw cfg real = (
    λ e. elim (Bool-cases (is_empty (trim_space raw))) [
      | inl a ↦ absurd (cc (rw a at e))
      | inr a ↦ accept_dir raw cfg real cfg.workspace.keylog_dir a refl (rw a at e)
    ],
    accepted_resolves raw cfg real,
  )
