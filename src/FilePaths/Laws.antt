-- ===== src/FilePaths/Laws.antt =====
-- Containment is strict extension.
use mathlib.Core.Path.{subst}
use cute_pcap_mcp.Base.{
  true, false, not, List, [], ◌∷◌, ◌++◌, ◌≡◌, refl, sym, ap, ◌∙◌, ◌↔◌, ◌⊎◌, inl, inr, All, arith,
  Bool-cases,
}
use cute_pcap_mcp.Base.Text.{Bytes, eq_bytes, eq_bytes_iff}
use cute_pcap_mcp.FilePaths.{
  FilePath, parent_mark, rel, is_inner, path_contains, same_path, under_any,
}

-- A clean absolute path has no segment "..".
abbrev pub IsClean : FilePath → Type 0
IsClean p = All (λ s. eq_bytes s parent_mark ≡ false) p

-- `inner` is `outer` followed by at least one segment.
abbrev pub Extends : FilePath → FilePath → Type 0
Extends outer inner = (s : Bytes) × (rest : FilePath) × (inner ≡ outer ++ s ∷ rest)

pub path_contains-Extends :
    (outer inner : FilePath) → path_contains outer inner ≡ true → Extends outer inner
unfolding path_contains eq_bytes
path_contains-Extends [] [] h = cc
path_contains-Extends [] (t ∷ inner) h = (t, inner, refl)
path_contains-Extends (s ∷ outer) [] h = cc
path_contains-Extends (s ∷ outer) (t ∷ inner) h = elim (Bool-cases (eq_bytes s t)) [
  | inl e ↦
      let (u, rest, p) = path_contains-Extends outer inner (rw e at h) in
      let same = (eq_bytes_iff s t).0 e in (u, rest, λ i. sym same i ∷ p i)
  | inr e ↦ let k : false ≡ true = rw e at h in cc
]

rel-append : (outer q : FilePath) → rel outer (outer ++ q) ≡ q
unfolding rel
rel-append [] q = refl
rel-append (s ∷ outer) q = rw ((eq_bytes_iff s s).1 refl) (rel-append outer q)

IsClean-middle :
    (outer rest : FilePath) (s : Bytes)
    → IsClean (outer ++ s ∷ rest)
    → eq_bytes s parent_mark ≡ false
IsClean-middle [] rest s (h, k) = h
IsClean-middle (t ∷ outer) rest s (h, k) = IsClean-middle outer rest s k

Extends-path_contains :
    (outer inner : FilePath)
    → IsClean inner
    → Extends outer inner
    → path_contains outer inner ≡ true
unfolding path_contains
Extends-path_contains outer inner c (s, rest, e) =
    let clean = IsClean-middle outer rest s (subst IsClean e c) in
    ap (λ p. is_inner (rel outer p)) e ∙ (ap is_inner (rel-append outer (s ∷ rest)) ∙ ap not clean)

-- A clean path is inside a directory exactly if it is the directory's path with further segments.
pub path_contains_iff :
    (outer inner : FilePath)
    → IsClean inner
    → (path_contains outer inner ≡ true) ↔ Extends outer inner
path_contains_iff outer inner c =
    (path_contains-Extends outer inner, Extends-path_contains outer inner c)

-- So a path is under the allowed directories exactly if it extends one of them.
abbrev pub Some : (FilePath → Type 0) → List FilePath → Type 0
Some P [] = ⊥
Some P (d ∷ ds) = P d ⊎ Some P ds

pub under_any_iff :
    (path : FilePath) (dirs : List FilePath)
    → IsClean path
    → (under_any path dirs ≡ true) ↔ Some (λ d. Extends d path) dirs
unfolding under_any
under_any_iff path [] c = (λ h. cc, λ h. absurd h)
under_any_iff path (d ∷ ds) c = elim (Bool-cases (path_contains d path)) [
  | inl e ↦ (λ h. inl (path_contains-Extends d path e), λ h. rw e refl)
  | inr e ↦ (
    λ h. inr ((under_any_iff path ds c).0 (rw e at h)),
    λ h. elim h [
      | inl x ↦ absurd (let k = Extends-path_contains d path c x in ground arith)
      | inr x ↦ rw e ((under_any_iff path ds c).1 x)
    ],
  )
]

pub same_path_iff : (p q : FilePath) → (same_path p q ≡ true) ↔ (p ≡ q)
unfolding same_path
same_path_iff [] [] = (λ h. refl, λ h. refl)
same_path_iff [] (t ∷ q) = (λ h. cc, λ h. cc)
same_path_iff (s ∷ p) [] = (λ h. cc, λ h. cc)
same_path_iff (s ∷ p) (t ∷ q) = ground (arith, eq_bytes_iff s t, same_path_iff p q)
