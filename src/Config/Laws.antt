-- ===== src/Config/Laws.antt =====
-- What an accepted configuration guarantees of its directories.
use mathlib.Core.Path.{subst}
use cute_pcap_mcp.Base.{
  not-true, ◌≢◌, true, false, not, ◌&&◌, ◌||◌, List, [], ◌∷◌, ◌++◌, Option, none, some, ◌≡◌, refl,
  ◌∙◌, inl, inr, arith, Bool-cases, some_eq,
}
use cute_pcap_mcp.Base.Text.{Bytes}
use cute_pcap_mcp.FilePaths.{FilePath, path_contains, same_path}
use cute_pcap_mcp.FilePaths.Laws.{Extends, path_contains-Extends, same_path_iff}
use cute_pcap_mcp.Config.Bounds.{
  then_do-ok, require-ok, IsBounded, normalize_limits-IsBounded, ok_eq,
}
use cute_pcap_mcp.Config.{
  is_none, ok, Stat, RawWorkspace, Workspace, RawConfig, Config, both, check_slot, check_root,
  check_workspace, seen, add_dir, with_pcap_dir, resolve_dirs, normalize_workspace, normalize,
  no_dirs,
}

-- A directory, if it is set, lies strictly below the root.
abbrev pub IsBelow : FilePath → Option FilePath → Type 0
IsBelow root none = Unit
IsBelow root (some dir) = (dir ≢ root) × Extends root dir

abbrev pub AreBelow : Option FilePath → Workspace → Type 0
AreBelow none w = Unit
AreBelow (some root) w =
    IsBelow root w.pcap_dir
    × (IsBelow root w.output_dir × (IsBelow root w.tmp_dir × IsBelow root w.keylog_dir))

-- `dir` is neither the pcap directory nor inside it, if both are set.
pub record IsApart (pcap dir : Option FilePath) : Type 0 where
  pub differs : both same_path dir pcap ≡ false
  pub outside : both path_contains pcap dir ≡ false

pub record IsSeparated (w : Workspace) : Type 0 where
  pub output : IsApart w.pcap_dir w.output_dir
  pub tmp : IsApart w.pcap_dir w.tmp_dir
  pub below : AreBelow w.root w

check_slot-ok :
    (root : FilePath) (slot : Option FilePath) {u : Unit {0}}
    → check_slot root slot ≡ ok u
    → IsBelow root slot
unfolding check_slot
check_slot-ok root none e = tt
check_slot-ok root (some dir) e =
    let (a, e1) = require-ok _ _ _ e in
    let (b, e2) = require-ok _ _ _ e1 in
    (λ p. ground (arith, same_path_iff dir root), path_contains-Extends root dir b)

check_root-ok :
    (root : Option FilePath) (w : Workspace) {u : Unit {0}}
    → check_root root w ≡ ok u
    → AreBelow root w
unfolding check_root
check_root-ok none w e = tt
check_root-ok (some root) w e =
    let (a, a1, e1) = then_do-ok _ _ e in
    let (b, b1, e2) = then_do-ok _ _ e1 in
    let (c, c1, e3) = then_do-ok _ _ e2 in
    (
      check_slot-ok root w.pcap_dir a1,
      (
        check_slot-ok root w.output_dir b1,
        (check_slot-ok root w.tmp_dir c1, check_slot-ok root w.keylog_dir e3),
      ),
    )

check_workspace-ok : (w : Workspace) {v : Workspace} → check_workspace w ≡ ok v → IsSeparated v
unfolding check_workspace
check_workspace-ok w e =
    let (a, e1) = require-ok _ _ _ e in
    let (b, e2) = require-ok _ _ _ e1 in
    let (c, e3) = require-ok _ _ _ e2 in
    let (d, e4) = require-ok _ _ _ e3 in
    let (u, f, e5) = then_do-ok _ _ e4 in
    subst IsSeparated (ok_eq e5) (record {
      output = record { differs = not-true _ a; outside = not-true _ c };
      tmp = record { differs = not-true _ b; outside = not-true _ d };
      below = check_root-ok w.root w f;
    })

-- No directory is in the list twice.
abbrev pub IsDistinct : List FilePath → Type 0
IsDistinct [] = Unit
IsDistinct (d ∷ ds) = (seen d ds ≡ false) × IsDistinct ds

seen-append :
    (p q : FilePath) (ds : List FilePath) → seen p (ds ++ q ∷ []) ≡ (seen p ds || same_path q p)
unfolding seen
seen-append p q [] = ground arith
seen-append p q (d ∷ ds) = ground (arith, seen-append p q ds)

IsDistinct-append :
    (p : FilePath) (ds : List FilePath)
    → seen p ds ≡ false
    → IsDistinct ds
    → IsDistinct (ds ++ p ∷ [])
unfolding seen
IsDistinct-append p [] h d = (refl, tt)
IsDistinct-append p (q ∷ ds) h (n, d) = (
  ground (arith, seen-append q p ds, same_path_iff p q, same_path_iff q p),
  IsDistinct-append p ds (ground arith) d,
)

add_dir-IsDistinct : (p : FilePath) (ds : List FilePath) → IsDistinct ds → IsDistinct (add_dir p ds)
add_dir-IsDistinct p ds d = elim (Bool-cases (seen p ds)) [
  | inl e ↦ rw e d
  | inr e ↦ rw e (IsDistinct-append p ds e d)
]

seen-add_dir : (p : FilePath) (ds : List FilePath) → seen p (add_dir p ds) ≡ true
seen-add_dir p ds = elim (Bool-cases (seen p ds)) [
  | inl e ↦ rw e e
  | inr e ↦ rw e (ground (arith, seen-append p p ds, same_path_iff p p))
]

add_dir_some : (p : FilePath) (ds : List FilePath) → add_dir p ds ≢ []
unfolding seen
add_dir_some p [] = λ e. cc
add_dir_some p (d ∷ ds) = elim (Bool-cases (seen p (d ∷ ds))) [
  | inl e ↦ rw e (λ z. cc)
  | inr e ↦ rw e (λ z. cc)
]

with_pcap_dir-IsDistinct :
    (o : Option FilePath) (ds : List FilePath) → IsDistinct ds → IsDistinct (with_pcap_dir o ds)
with_pcap_dir-IsDistinct none ds d = d
with_pcap_dir-IsDistinct (some p) ds d = add_dir-IsDistinct p ds d

seen-with_pcap_dir :
    (o : Option FilePath) (ds : List FilePath) (p : FilePath)
    → o ≡ some p
    → seen p (with_pcap_dir o ds) ≡ true
seen-with_pcap_dir none ds p e = cc
seen-with_pcap_dir (some q) ds p e =
    subst (λ r. seen r (add_dir q ds) ≡ true) (some_eq e) (seen-add_dir q ds)

-- What the accepted configuration satisfies.
pub record IsValid (c : Config) : Type 0 where
  pub separated : IsSeparated c.workspace
  pub distinct : IsDistinct c.allowed_artifact_dirs
  pub some_dir : c.allowed_artifact_dirs ≢ []
  pub has_pcap_dir :
      (p : FilePath) → c.workspace.pcap_dir ≡ some p → seen p c.allowed_artifact_dirs ≡ true
  pub bounded : IsBounded c.analysis

module _ (absolute : Bytes → Option FilePath) (stat : FilePath → Stat)
    (eval_symlinks : FilePath → Option FilePath) where
  resolve_dirs-IsDistinct :
      (done : List FilePath) (ts : List Bytes) {ds : List FilePath}
      → resolve_dirs absolute stat eval_symlinks done ts ≡ ok ds
      → IsDistinct done
      → IsDistinct ds
  unfolding resolve_dirs
  resolve_dirs-IsDistinct done [] e d = subst IsDistinct (ok_eq e) d
  resolve_dirs-IsDistinct done (t ∷ ts) e d =
      let (a, e1) = require-ok _ _ _ e in
      let (p, b, e2) = then_do-ok _ _ e1 in
      resolve_dirs-IsDistinct (add_dir p done) ts e2 (add_dir-IsDistinct p done d)

  -- The list only grows.
  resolve_dirs_grow :
      (done : List FilePath) (ts : List Bytes) {ds : List FilePath}
      → resolve_dirs absolute stat eval_symlinks done ts ≡ ok ds
      → done ≢ []
      → ds ≢ []
  unfolding resolve_dirs
  resolve_dirs_grow done [] e n = λ z. n (ok_eq e ∙ z)
  resolve_dirs_grow done (t ∷ ts) e n =
      let (a, e1) = require-ok _ _ _ e in
      let (p, b, e2) = then_do-ok _ _ e1 in
      resolve_dirs_grow (add_dir p done) ts e2 (add_dir_some p done)

  dirs_some :
      (ts : List Bytes) (pcap : Option FilePath) {ds : List FilePath}
      → not (no_dirs ts && is_none pcap) ≡ true
      → resolve_dirs absolute stat eval_symlinks [] ts ≡ ok ds
      → with_pcap_dir pcap ds ≢ []
  unfolding resolve_dirs
  dirs_some ts (some p) {ds} h e = add_dir_some p ds
  dirs_some [] none h e = cc
  dirs_some (t ∷ ts) none h e =
      let (a, e1) = require-ok _ _ _ e in
      let (p, b, e2) = then_do-ok _ _ e1 in
      resolve_dirs_grow (add_dir p []) ts e2 (add_dir_some p [])

  normalize_workspace-IsSeparated :
      (raw : RawWorkspace) {w : Workspace}
      → normalize_workspace absolute stat eval_symlinks raw ≡ ok w
      → IsSeparated w
  unfolding normalize_workspace
  normalize_workspace-IsSeparated raw e =
      let (root, a, e1) = then_do-ok _ _ e in
      let (pcap, b, e2) = then_do-ok _ _ e1 in
      let (output, c, e3) = then_do-ok _ _ e2 in
      let (tmp, d, e4) = then_do-ok _ _ e3 in
      let (keylog, f, e5) = then_do-ok _ _ e4 in check_workspace-ok _ e5

  -- An accepted configuration keeps the output and the temporary directory apart from the pcap
  -- directory and all of them below the root, if there is one; the allowed directories are at least one,
  -- different, and contain the pcap directory; and every limit is in its range.
  pub normalize-IsValid :
      (raw : RawConfig) (c : Config) → normalize absolute stat eval_symlinks raw ≡ ok c → IsValid c
  unfolding normalize
  normalize-IsValid raw c e =
      let (w, a, e1) = then_do-ok _ _ e in
      let (b, e2) = require-ok _ _ _ e1 in
      let (dirs, d, e3) = then_do-ok _ _ e2 in
      let (limits, l, e4) = then_do-ok _ _ e3 in
      subst IsValid (ok_eq e4) (record {
        separated = normalize_workspace-IsSeparated raw.workspace a;
        distinct =
            with_pcap_dir-IsDistinct w.pcap_dir dirs
              (resolve_dirs-IsDistinct [] raw.allowed_artifact_dirs d tt);
        some_dir = dirs_some raw.allowed_artifact_dirs w.pcap_dir b d;
        has_pcap_dir = λ p q. seen-with_pcap_dir w.pcap_dir dirs p q;
        bounded = normalize_limits-IsBounded raw.analysis limits l;
      })
