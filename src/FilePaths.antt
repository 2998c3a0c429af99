-- ===== src/FilePaths.antt =====
-- Absolute, clean paths as lists of their segments, and the tests of containment: `pathContains` of
-- internal/config/config.go and `underAny` of internal/pcap/server.go.
pub mod Laws
use cute_pcap_mcp.Base.{
  ℕ, suc, ◌+◌, ◌-◌, ◌*◌, ◌<◌, ◌≤◌, Bool, true, false, not, ◌&&◌, ◌||◌, List, [], ◌∷◌, ◌++◌, map,
  Option, none, some, ◌≡◌, refl, sym, ap, ◌∙◌, ◌↔◌, ◌⊎◌, inl, inr, ltb, leb, ◌==◌, if◌then◌else◌,
  All, All-append, arith, Bool-cases, Option-cases, some_eq, length, any, all,
}
use cute_pcap_mcp.Base.Text.{Bytes, codes, eq_bytes}

abbrev pub FilePath : Type 0
FilePath = List Bytes

abbrev pub parent_mark : Bytes
parent_mark = codes ".."

-- One step up for each segment.
abbrev pub ups : FilePath → FilePath
ups [] = []
ups (s ∷ base) = parent_mark ∷ ups base

-- filepath.Rel of two clean absolute paths; the empty list is ".".
unfoldable pub rel : FilePath → FilePath → FilePath
unfolding eq_bytes
rel [] target = target
rel (s ∷ base) [] = ups (s ∷ base)
rel (s ∷ base) (t ∷ target) = if eq_bytes s t then rel base target else ups (s ∷ base) ++ t ∷ target

-- Whether a relative path is neither "." nor starts with "..".
abbrev pub is_inner : FilePath → Bool
is_inner [] = false
is_inner (s ∷ r) = not (eq_bytes s parent_mark)

unfoldable pub path_contains : FilePath → FilePath → Bool
unfolding rel
path_contains outer inner = is_inner (rel outer inner)

unfoldable pub same_path : FilePath → FilePath → Bool
unfolding eq_bytes
same_path [] [] = true
same_path [] (t ∷ q) = false
same_path (s ∷ p) [] = false
same_path (s ∷ p) (t ∷ q) = eq_bytes s t && same_path p q

unfoldable pub under_any : FilePath → List FilePath → Bool
unfolding path_contains
under_any path [] = false
under_any path (dir ∷ dirs) = path_contains dir path || under_any path dirs
