-- ===== src/Inventory/Walk.antt =====
-- The walk of the inventory: the callback of `listPCAPArtifactsWithOptions` and filepath.WalkDir over a
-- tree whose directories list their entries in the order of their names.
pub mod Laws
pub mod Pages
pub mod Visits
use cute_pcap_mcp.Base.{
  ℕ, suc, Bool, true, false, List, [], ◌∷◌, ◌++◌, Option, none, some, ltb, leb, if◌then◌else◌,
  length,
}
use cute_pcap_mcp.Base.Text.{Bytes, codes}
use cute_pcap_mcp.Base.Int.{ℤ}
use cute_pcap_mcp.Inventory.{
  Cursor, Skip, skipped, ancestor, visited, skip_entry, is_pcap_name, Entry, Listed, entry, skip,
  stopped,
}

mutual
  -- An entry of a directory, by its name. A broken directory gives an error after some of its entries.
  pub data Node : Type 0 where
    file : Bytes → Node
    folder broken : Bytes → Nodes → Node

  pub data Nodes : Type 0 where
    end_ : Nodes
    also : Node → Nodes → Nodes

pub data ScanStatus : Type 0 where
  scan_complete page_limit_reached scan_budget_reached : ScanStatus

-- The variables that the callback changes.
pub record State : Type 0 where
  pub artifacts : List Entry
  pub scanned : ℕ
  pub last : Option Cursor
  pub truncated : Bool
  pub status : ScanStatus
  pub budget : ℤ
  pub skips : List Bytes

-- What the callback returns: nil, SkipDir, errArtifactInventoryStop and the error of the context.
pub data Reply : Type 0 where
  go_on skip_dir stop aborted : State → Reply

pub record Limits : Type 0 where
  pub max_scanned : ℕ
  pub max_artifacts : ℕ

-- `stopArtifactInventoryIfNeeded`, after an entry is scanned.
unfoldable pub stop_if_needed : Limits → State → Reply
stop_if_needed l s =
    if leb l.max_scanned s.scanned
    then stop (record s { truncated = true; status = scan_budget_reached })
    else go_on s

abbrev note_skip : Bytes → State → State
note_skip reason s = record s { skips = s.skips ++ reason ∷ [] }

abbrev count_entry : ℕ → Bytes → State → State
count_entry root rel s = record s {
  scanned = suc s.scanned;
  last = some (record { root_index = root; relative_path = rel });
}

-- The end of the callback for an artifact.
unfoldable pub after_artifact : Limits → State → Reply
after_artifact l s =
    if leb l.max_scanned s.scanned
    then stop (record s { truncated = true; status = scan_budget_reached })
    else if leb l.max_artifacts (length s.artifacts)
    then stop (record s { truncated = true; status = page_limit_reached })
    else go_on s

abbrev pub skip_reply : Skip → State → Reply → Reply → Reply
skip_reply skipped s on_skip visit = on_skip
skip_reply ancestor s on_skip visit = go_on s
skip_reply visited s on_skip visit = visit

-- Goes on after the entries of a directory.
abbrev pub then_walk : Reply → (State → Reply) → Reply
then_walk (go_on s) k = k s
then_walk (skip_dir s) k = k s
then_walk (stop s) k = stop s
then_walk (aborted s) k = aborted s

-- Goes on into a directory unless it is skipped.
abbrev pub enter : Reply → (State → Reply) → Reply
enter (go_on s) k = k s
enter (skip_dir s) k = go_on s
enter (stop s) k = stop s
enter (aborted s) k = aborted s

-- `ends` tells whether the context has ended when an entry is visited.
module _ (l : Limits) (root : ℕ) (cursor : Option Cursor) (ends : Bytes → Bool)
    (list_file : Bytes → ℤ → Listed × ℤ) where
  abbrev pub listed : State → Listed × ℤ → Reply
  listed s (entry e, budget) =
      after_artifact l (record s { artifacts = s.artifacts ++ e ∷ []; budget = budget })
  listed s (skip reason, budget) =
      stop_if_needed l (note_skip reason (record s { budget = budget }))
  listed s (stopped, budget) = aborted (record s { budget = budget })

  -- The callback for a file, for a directory, and for the error of a directory.
  unfoldable pub on_file : Bytes → State → Reply
  unfolding skip_entry is_pcap_name stop_if_needed after_artifact
  on_file rel s =
      let c = count_entry root rel s in
      if ends rel
      then aborted s
      else skip_reply (skip_entry root rel false cursor) s (go_on s)
          (if is_pcap_name rel then listed c (list_file rel s.budget) else stop_if_needed l c)

  unfoldable pub on_folder : Bytes → State → Reply
  unfolding skip_entry is_pcap_name stop_if_needed
  on_folder rel s =
      let c = count_entry root rel s in
      if ends rel
      then aborted s
      else skip_reply (skip_entry root rel true cursor) s (skip_dir s) (
          stop_if_needed l
            (if is_pcap_name rel then note_skip (codes "artifact_not_regular_file") c else c))

  unfoldable pub on_broken : Bytes → State → Reply
  unfolding skip_entry stop_if_needed
  on_broken rel s =
      if ends rel
      then aborted s
      else skip_reply (skip_entry root rel true cursor) s (skip_dir s)
          (stop_if_needed l (note_skip (codes "artifact_inaccessible") (count_entry root rel s)))

  -- filepath.WalkDir below a directory whose relative path with a slash is `above`.
  unfoldable mutual
    unfolding on_file on_folder on_broken

    pub walk_node : Bytes → Node → State → Reply
    walk_node above (file name) s = on_file (above ++ name) s
    walk_node above (folder name children) s =
        enter (on_folder (above ++ name) s)
          (λ t. walk_nodes (above ++ name ++ codes "/") children t)
    walk_node above (broken name children) s = enter (on_folder (above ++ name) s) (λ t.
        enter (on_broken (above ++ name) t)
          (λ u. walk_nodes (above ++ name ++ codes "/") children u))

    pub walk_nodes : Bytes → Nodes → State → Reply
    walk_nodes above end_ s = go_on s
    walk_nodes above (also n ns) s = then_walk (walk_node above n s) (λ t. walk_nodes above ns t)

abbrev pub before_cursor : ℕ → Option Cursor → Bool
before_cursor root none = false
before_cursor root (some c) = ltb root c.root_index

-- The loop over the roots; for a root itself the callback only asks whether the context has ended.
unfoldable pub walk_roots :
    Limits
    → Option Cursor
    → (ℕ → Bytes → Bool)
    → (ℕ → Bytes → ℤ → Listed × ℤ)
    → ℕ
    → List Nodes
    → State
    → Reply
unfolding walk_nodes
walk_roots l cursor ends list_file root [] s = go_on s
walk_roots l cursor ends list_file root (tree ∷ trees) s =
    let skipping = walk_roots l cursor ends list_file (suc root) trees s in
    let walking =
      then_walk (walk_nodes l root cursor (ends root) (list_file root) [] tree s)
        (λ t. walk_roots l cursor ends list_file (suc root) trees t) in
    if before_cursor root cursor then skipping else if ends root [] then aborted s else walking
