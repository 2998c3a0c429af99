-- ===== src/Inventory/Walk/Pages.antt =====
-- The limits over the whole walk.
use cute_pcap_mcp.Base.{ℕ, suc, Bool, List, [], ◌∷◌, ◌++◌, Option, inl, inr, Bool-cases}
use cute_pcap_mcp.Base.Text.{Bytes, codes}
use cute_pcap_mcp.Base.Int.{ℤ}
use cute_pcap_mcp.Inventory.{Cursor, Listed}
use cute_pcap_mcp.Inventory.Walk.{
  Node, Nodes, file, folder, broken, end_, also, State, Reply, go_on, skip_dir, stop, aborted,
  Limits, then_walk, enter, walk_node, walk_nodes, before_cursor, walk_roots,
}
use cute_pcap_mcp.Inventory.Walk.Laws.{
  Running, Within, on_file-Within, on_folder-Within, on_broken-Within,
}

then_walk-Within :
    (l : Limits) (r : Reply) (k : State → Reply)
    → Within l r
    → ((t : State) → Running l t → Within l (k t))
    → Within l (then_walk r k)
then_walk-Within l (go_on s) k h next = next s h
then_walk-Within l (skip_dir s) k h next = next s h
then_walk-Within l (stop s) k h next = h
then_walk-Within l (aborted s) k h next = h

enter-Within :
    (l : Limits) (r : Reply) (k : State → Reply)
    → Within l r
    → ((t : State) → Running l t → Within l (k t))
    → Within l (enter r k)
enter-Within l (go_on s) k h next = next s h
enter-Within l (skip_dir s) k h next = h
enter-Within l (stop s) k h next = h
enter-Within l (aborted s) k h next = h

module _ (l : Limits) (root : ℕ) (cursor : Option Cursor) (ends : Bytes → Bool)
    (list_file : Bytes → ℤ → Listed × ℤ) where
  mutual
    unfolding walk_node

    walk_node-Within :
        (above : Bytes) (n : Node) (s : State)
        → Running l s
        → Within l (walk_node l root cursor ends list_file above n s)
    walk_node-Within above (file name) s h =
        on_file-Within l root cursor ends list_file (above ++ name) s h
    walk_node-Within above (folder name children) s h =
        enter-Within l _ _ (on_folder-Within l root cursor ends list_file (above ++ name) s h)
          (λ t k. walk_nodes-Within (above ++ name ++ codes "/") children t k)
    walk_node-Within above (broken name children) s h =
        enter-Within l _ _ (on_folder-Within l root cursor ends list_file (above ++ name) s h)
          (λ t k.
            enter-Within l _ _ (on_broken-Within l root cursor ends list_file (above ++ name) t k)
              (λ u m. walk_nodes-Within (above ++ name ++ codes "/") children u m))

    pub walk_nodes-Within :
        (above : Bytes) (ns : Nodes) (s : State)
        → Running l s
        → Within l (walk_nodes l root cursor ends list_file above ns s)
    walk_nodes-Within above end_ s h = h
    walk_nodes-Within above (also n ns) s h =
        then_walk-Within l _ _ (walk_node-Within above n s h)
          (λ t k. walk_nodes-Within above ns t k)

-- From a state within both limits, the walk over the roots ends in one of three ways: the context ended;
-- the walk goes on, with room left under both limits and no mark of truncation; or it stopped, marked
-- as truncated, exactly when the scanned entries or the artifacts reach their limit, and none above it.
pub walk_roots-Within :
    (l : Limits) (cursor : Option Cursor) (ends : ℕ → Bytes → Bool)
    (list_file : ℕ → Bytes → ℤ → Listed × ℤ) (root : ℕ) (trees : List Nodes) (s : State)
    → Running l s
    → Within l (walk_roots l cursor ends list_file root trees s)
unfolding walk_roots
walk_roots-Within l cursor ends list_file root [] s h = h
walk_roots-Within l cursor ends list_file root (tree ∷ trees) s h =
    elim (Bool-cases (before_cursor root cursor)) [
      | inl p ↦ rw p (walk_roots-Within l cursor ends list_file (suc root) trees s h)
      | inr p ↦ rw p (elim (Bool-cases (ends root [])) [
        | inl q ↦ rw q tt
        | inr q ↦ rw q (
            then_walk-Within l _ _
              (walk_nodes-Within l root cursor (ends root) (list_file root) [] tree s h)
              (λ t k. walk_roots-Within l cursor ends list_file (suc root) trees t k))
      ])
    ]
