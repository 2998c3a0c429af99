-- ===== src/Base/Text/Lines.antt =====
-- Texts cut into pieces: strings.Split, strings.Fields, strings.IndexByte and the lines of a
-- bufio.Scanner.
use Prim.Native.Nat.{ℕ, zero, suc, ◌-◌}
use mathlib.Core.Path.{◌≡◌, refl, ap, ◌∙◌}
use mathlib.Core.Option.{Option, none, some}
use mathlib.Core.List.{List, [], ◌∷◌, ◌++◌, append_assoc, append-nil}
use native.Mathlib.Omega.{arith}
use cute_pcap_mcp.Base.Tests.{◌==◌, if◌then◌else◌}
use cute_pcap_mcp.Base.Lists.{length, All}
use cute_pcap_mcp.Base.Text.{Bytes, has_prefix, is_space, is_empty}
use cute_pcap_mcp.Base.Text.Splits.{Lacks}

-- strings.Split(s, sep) for a separator that is not empty; `skip` counts the bytes of a separator that
-- are left to pass over, and `part` is the piece that is being read.
unfoldable pub split_from : Bytes → ℕ → Bytes → Bytes → List Bytes
unfolding has_prefix
split_from sep skip part [] = part ∷ []
split_from sep (suc skip) part (c ∷ s) = split_from sep skip part s
split_from sep zero part (c ∷ s) =
    let cut = part ∷ split_from sep (length sep - 1) [] s in
    let more = split_from sep zero (part ++ c ∷ []) s in
    if has_prefix (c ∷ s) sep then cut else more

-- Each byte by itself, as for an empty separator.
abbrev pub explode : Bytes → List Bytes
explode [] = []
explode (c ∷ s) = (c ∷ []) ∷ explode s

unfoldable pub split : Bytes → Bytes → List Bytes
unfolding split_from
split s sep = if is_empty sep then explode s else split_from sep 0 [] s

-- The pieces joined with a byte between them.
abbrev pub join_byte : ℕ → Bytes → List Bytes → Bytes
join_byte c w [] = w
join_byte c w (v ∷ vs) = w ++ c ∷ join_byte c v vs

split_from-piece :
    (c : ℕ) (part w r : Bytes)
    → Lacks c w
    → split_from (c ∷ []) 0 part (w ++ c ∷ r) ≡ (part ++ w) ∷ split_from (c ∷ []) 0 [] r
unfolding split_from
split_from-piece c part [] r h = rw (append-nil part) (ground arith)
split_from-piece c part (b ∷ w) r h =
    let ih = split_from-piece c (part ++ b ∷ []) w r h.1 in
    let whole : (part ++ b ∷ []) ++ w ≡ part ++ b ∷ w = append_assoc part (b ∷ []) w in
    ground (arith, ih, whole)

split_from-last :
    (c : ℕ) (part w : Bytes) → Lacks c w → split_from (c ∷ []) 0 part w ≡ (part ++ w) ∷ []
unfolding split_from
split_from-last c part [] h = rw (append-nil part) refl
split_from-last c part (b ∷ w) h =
    let ih = split_from-last c (part ++ b ∷ []) w h.1 in
    let whole : (part ++ b ∷ []) ++ w ≡ part ++ b ∷ w = append_assoc part (b ∷ []) w in
    ground (arith, ih, whole)

-- Pieces that lack the byte are read back.
pub split-join_byte :
    (c : ℕ) (w : Bytes) (vs : List Bytes)
    → Lacks c w
    → All (Lacks c) vs
    → split (join_byte c w vs) (c ∷ []) ≡ w ∷ vs
unfolding split
split-join_byte c w [] h k = split_from-last c [] w h
split-join_byte c w (v ∷ vs) h (k, ks) =
    split_from-piece c [] w (join_byte c v vs) h ∙ ap (λ t. w ∷ t) (split-join_byte c v vs k ks)

-- strings.Fields; `part` is the field that is being read.
abbrev close_field : Bytes → List Bytes → List Bytes
close_field part rest = if is_empty part then rest else part ∷ rest

unfoldable pub fields_from : Bytes → Bytes → List Bytes
fields_from part [] = close_field part []
fields_from part (c ∷ s) =
    let ended = close_field part (fields_from [] s) in
    let more = fields_from (part ++ c ∷ []) s in if is_space c then ended else more

unfoldable pub fields : Bytes → List Bytes
unfolding fields_from
fields s = fields_from [] s

-- The text before and after the first place of a byte.
unfoldable pub cut_at : ℕ → Bytes → Option (Bytes × Bytes)
cut_at c [] = none
cut_at c (b ∷ s) =
    let rest : Option (Bytes × Bytes) = elim (cut_at c s) [
      | none ↦ none
      | some (p, q) ↦ some (b ∷ p, q)
    ] in
    if b == c then some ([], s) else rest

-- The lines of a text with their '\r', without their '\n'; no line follows the last '\n'.
unfoldable pub raw_lines_from : Bytes → Bytes → List Bytes
raw_lines_from part [] = if is_empty part then [] else part ∷ []
raw_lines_from part (c ∷ s) =
    let ended = part ∷ raw_lines_from [] s in
    let more = raw_lines_from (part ++ c ∷ []) s in if c == b'\n' then ended else more

unfoldable pub raw_lines : Bytes → List Bytes
unfolding raw_lines_from
raw_lines s = raw_lines_from [] s

-- A '\r' at the end of a line is dropped.
unfoldable pub drop_return : Bytes → Bytes
drop_return [] = []
drop_return (c ∷ []) = if c == b'\r' then [] else c ∷ []
drop_return (c ∷ d ∷ s) = c ∷ drop_return (d ∷ s)

-- The text that has the given lines, each ended by '\n'.
abbrev pub unlines : List Bytes → Bytes
unlines [] = []
unlines (l ∷ ls) = l ++ b'\n' ∷ unlines ls

raw_lines_from-line :
    (part l r : Bytes)
    → Lacks b'\n' l
    → raw_lines_from part (l ++ b'\n' ∷ r) ≡ (part ++ l) ∷ raw_lines_from [] r
unfolding raw_lines_from
raw_lines_from-line part [] r h = rw (append-nil part) refl
raw_lines_from-line part (b ∷ l) r h =
    let ih = raw_lines_from-line (part ++ b ∷ []) l r h.1 in
    let whole : (part ++ b ∷ []) ++ l ≡ part ++ b ∷ l = append_assoc part (b ∷ []) l in
    ground (arith, ih, whole)

pub raw_lines-unlines : (ls : List Bytes) → All (Lacks b'\n') ls → raw_lines (unlines ls) ≡ ls
unfolding raw_lines
raw_lines-unlines [] h = refl
raw_lines-unlines (l ∷ ls) (h, hs) =
    raw_lines_from-line [] l (unlines ls) h ∙ ap (λ t. l ∷ t) (raw_lines-unlines ls hs)

pub drop_return_same : (l : Bytes) → Lacks b'\r' l → drop_return l ≡ l
unfolding drop_return
drop_return_same [] h = refl
drop_return_same (c ∷ []) h = ground arith
drop_return_same (c ∷ d ∷ s) h = ap (λ t. c ∷ t) (drop_return_same (d ∷ s) h.1)
