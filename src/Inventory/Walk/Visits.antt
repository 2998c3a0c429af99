-- ===== src/Inventory/Walk/Visits.antt =====
-- A walk that goes to its end visits every entry of every root, in order.
use cute_pcap_mcp.Base.{
  ℕ, suc, Bool, true, false, List, [], ◌∷◌, ◌++◌, Option, ◌≡◌, refl, ◌⊎◌, inl, inr, Bool-cases,
}
use cute_pcap_mcp.Base.Text.{Bytes, codes}
use cute_pcap_mcp.Base.Int.{ℤ}
use cute_pcap_mcp.Inventory.{Cursor, Listed}
use cute_pcap_mcp.Inventory.Walk.{
  Node, Nodes, file, folder, broken, end_, also, State, Reply, go_on, skip_dir, stop, aborted,
  Limits, then_walk, enter, on_file, on_folder, on_broken, walk_node, walk_nodes, before_cursor,
  walk_roots,
}
use cute_pcap_mcp.Inventory.Walk.Laws.{Running, Full, Within}
use cute_pcap_mcp.Inventory.Walk.Pages.{walk_nodes-Within}

-- The walk goes on after a reply, in the state that it gives.
abbrev pub Passes : Reply → State → Type 0
Passes r t = (r ≡ go_on t) ⊎ (r ≡ skip_dir t)

-- What is known of the state after a reply with which the walk goes on.
abbrev Leads : (State → Type 0) → Reply → Type 0
Leads P (go_on t) = P t
Leads P (skip_dir t) = P t
Leads P (stop t) = Unit
Leads P (aborted t) = Unit

Leads-Passes : (r : Reply) → Leads (Passes r) r
Leads-Passes (go_on t) = inl refl
Leads-Passes (skip_dir t) = inr refl
Leads-Passes (stop t) = tt
Leads-Passes (aborted t) = tt

Leads-map : (P Q : State → Type 0) (r : Reply) → ((t : State) → P t → Q t) → Leads P r → Leads Q r
Leads-map P Q (go_on t) f h = f t h
Leads-map P Q (skip_dir t) f h = f t h
Leads-map P Q (stop t) f h = tt
Leads-map P Q (aborted t) f h = tt

Leads-then_walk :
    (P Q : State → Type 0) (r : Reply) (k : State → Reply)
    → Leads P r
    → ((t : State) → P t → Leads Q (k t))
    → Leads Q (then_walk r k)
Leads-then_walk P Q (go_on t) k h next = next t h
Leads-then_walk P Q (skip_dir t) k h next = next t h
Leads-then_walk P Q (stop t) k h next = tt
Leads-then_walk P Q (aborted t) k h next = tt

Leads-enter :
    (Q : State → Type 0) (r : Reply) (k : State → Reply)
    → ((t : State) → r ≡ skip_dir t → Q t)
    → ((t : State) → r ≡ go_on t → Leads Q (k t))
    → Leads Q (enter r k)
Leads-enter Q (go_on t) k skipped next = next t refl
Leads-enter Q (skip_dir t) k skipped next = skipped t refl
Leads-enter Q (stop t) k skipped next = tt
Leads-enter Q (aborted t) k skipped next = tt

module _ (l : Limits) (root : ℕ) (cursor : Option Cursor) (ends : Bytes → Bool)
    (list_file : Bytes → ℤ → Listed × ℤ) where
  abbrev at_file : Bytes → State → Reply
  at_file = on_file l root cursor ends list_file

  abbrev at_folder : Bytes → State → Reply
  at_folder = on_folder l root cursor ends list_file

  abbrev at_broken : Bytes → State → Reply
  at_broken = on_broken l root cursor ends list_file

  -- The callback was called for an entry, and for all that is below it unless it said to skip that.
  mutual
    pub data VisitsNode : Bytes → Node → State → State → Type 0 where
      a_file :
          {above name : Bytes} {s t : State}
          → Passes (at_file (above ++ name) s) t
          → VisitsNode above (file name) s t
      skipped_folder :
          {above name : Bytes} {children : Nodes} {s t : State}
          → at_folder (above ++ name) s ≡ skip_dir t
          → VisitsNode above (folder name children) s t
      a_folder :
          {above name : Bytes} {children : Nodes} {s t u : State}
          → at_folder (above ++ name) s ≡ go_on u
          → VisitsNodes (above ++ name ++ codes "/") children u t
          → VisitsNode above (folder name children) s t
      skipped_broken :
          {above name : Bytes} {children : Nodes} {s t : State}
          → at_folder (above ++ name) s ≡ skip_dir t
          → VisitsNode above (broken name children) s t
      unread_broken :
          {above name : Bytes} {children : Nodes} {s t u : State}
          → at_folder (above ++ name) s ≡ go_on u
          → at_broken (above ++ name) u ≡ skip_dir t
          → VisitsNode above (broken name children) s t
      a_broken :
          {above name : Bytes} {children : Nodes} {s t u v : State}
          → at_folder (above ++ name) s ≡ go_on u
          → at_broken (above ++ name) u ≡ go_on v
          → VisitsNodes (above ++ name ++ codes "/") children v t
          → VisitsNode above (broken name children) s t

    pub data VisitsNodes : Bytes → Nodes → State → State → Type 0 where
      no_more : {above : Bytes} {s : State} → VisitsNodes above end_ s s
      and_then :
          {above : Bytes} {n : Node} {ns : Nodes} {s t u : State}
          → VisitsNode above n s u
          → VisitsNodes above ns u t
          → VisitsNodes above (also n ns) s t

  mutual
    unfolding walk_node

    Leads-walk_node :
        (above : Bytes) (n : Node) (s : State)
        → Leads (VisitsNode above n s) (walk_node l root cursor ends list_file above n s)
    Leads-walk_node above (file name) s =
        let r = at_file (above ++ name) s in
        Leads-map (Passes r) (VisitsNode above (file name) s) r (λ t p. a_file p) (Leads-Passes r)
    Leads-walk_node above (folder name children) s =
        let below = above ++ name ++ codes "/" in
        let goal = VisitsNode above (folder name children) s in
        Leads-enter goal (at_folder (above ++ name) s)
          (λ u. walk_nodes l root cursor ends list_file below children u) (λ t e. skipped_folder e)
          (λ u e.
            Leads-map (VisitsNodes below children u) goal
              (walk_nodes l root cursor ends list_file below children u) (λ t v. a_folder e v)
              (Leads-walk_nodes below children u))
    Leads-walk_node above (broken name children) s =
        let below = above ++ name ++ codes "/" in
        let goal = VisitsNode above (broken name children) s in
        let inside : State → Reply =
          λ u. walk_nodes l root cursor ends list_file below children u in
        Leads-enter goal (at_folder (above ++ name) s)
          (λ u. enter (at_broken (above ++ name) u) inside) (λ t e. skipped_broken e)
          (λ u e.
            Leads-enter goal (at_broken (above ++ name) u) inside (λ t f. unread_broken e f)
              (λ v f.
                Leads-map (VisitsNodes below children v) goal (inside v) (λ t w. a_broken e f w)
                  (Leads-walk_nodes below children v)))

    Leads-walk_nodes :
        (above : Bytes) (ns : Nodes) (s : State)
        → Leads (VisitsNodes above ns s) (walk_nodes l root cursor ends list_file above ns s)
    Leads-walk_nodes above end_ s = no_more
    Leads-walk_nodes above (also n ns) s =
        let goal = VisitsNodes above (also n ns) s in
        Leads-then_walk (VisitsNode above n s) goal
          (walk_node l root cursor ends list_file above n s)
          (λ u. walk_nodes l root cursor ends list_file above ns u) (Leads-walk_node above n s)
          (λ u v.
            Leads-map (VisitsNodes above ns u) goal
              (walk_nodes l root cursor ends list_file above ns u) (λ t w. and_then v w)
              (Leads-walk_nodes above ns u))

module _ (l : Limits) (cursor : Option Cursor) (ends : ℕ → Bytes → Bool)
    (list_file : ℕ → Bytes → ℤ → Listed × ℤ) where
  abbrev VisitsRoot : ℕ → Nodes → State → State → Type 0
  VisitsRoot root tree = VisitsNodes l root cursor (ends root) (list_file root) [] tree

  -- Every root from the one of the cursor on was visited.
  pub data VisitsRoots : ℕ → List Nodes → State → State → Type 0 where
    no_root : {root : ℕ} {s : State} → VisitsRoots root [] s s
    before_it :
        {root : ℕ} {tree : Nodes} {trees : List Nodes} {s t : State}
        → before_cursor root cursor ≡ true
        → VisitsRoots (suc root) trees s t
        → VisitsRoots root (tree ∷ trees) s t
    a_root :
        {root : ℕ} {tree : Nodes} {trees : List Nodes} {s t u : State}
        → before_cursor root cursor ≡ false
        → ends root [] ≡ false
        → VisitsRoot root tree s u
        → VisitsRoots (suc root) trees u t
        → VisitsRoots root (tree ∷ trees) s t

  -- How a walk over roots ends. It is never told to skip.
  abbrev pub IsEnd : ℕ → List Nodes → State → Reply → Type 0
  IsEnd root trees s (go_on t) = Running l t × VisitsRoots root trees s t
  IsEnd root trees s (skip_dir t) = ⊥
  IsEnd root trees s (stop t) = Full l t
  IsEnd root trees s (aborted t) = Unit

  IsEnd-map :
      (root root_ : ℕ) (trees trees_ : List Nodes) (s s_ : State) (r : Reply)
      → ((t : State) → VisitsRoots root trees s t → VisitsRoots root_ trees_ s_ t)
      → IsEnd root trees s r
      → IsEnd root_ trees_ s_ r
  IsEnd-map root root_ trees trees_ s s_ (go_on t) f (h, v) = (h, f t v)
  IsEnd-map root root_ trees trees_ s s_ (skip_dir t) f h = absurd h
  IsEnd-map root root_ trees trees_ s s_ (stop t) f h = h
  IsEnd-map root root_ trees trees_ s s_ (aborted t) f h = tt

  IsEnd-then_walk :
      (P : State → Type 0) (root : ℕ) (trees : List Nodes) (s : State) (r : Reply)
      (k : State → Reply)
      → Within l r
      → Leads P r
      → ((t : State) → Running l t → P t → IsEnd root trees s (k t))
      → IsEnd root trees s (then_walk r k)
  IsEnd-then_walk P root trees s (go_on t) k h p next = next t h p
  IsEnd-then_walk P root trees s (skip_dir t) k h p next = next t h p
  IsEnd-then_walk P root trees s (stop t) k h p next = h
  IsEnd-then_walk P root trees s (aborted t) k h p next = tt

  -- From a state within both limits, the walk over the roots ends in one of three ways: the context ended;
  -- the callback was called for every root from that of the cursor on and for every entry of them that is not
  -- below a skipped directory, in order, with room left under both limits and no mark of truncation; or
  -- it stopped, marked as truncated, exactly when the scanned entries or the artifacts reach their limit, and
  -- none is above it.
  pub walk_roots-IsEnd :
      (root : ℕ) (trees : List Nodes) (s : State)
      → Running l s
      → IsEnd root trees s (walk_roots l cursor ends list_file root trees s)
  unfolding walk_roots
  walk_roots-IsEnd root [] s h = (h, no_root)
  walk_roots-IsEnd root (tree ∷ trees) s h =
      let rest : State → Reply = λ u. walk_roots l cursor ends list_file (suc root) trees u in
      elim (Bool-cases (before_cursor root cursor)) [
        | inl p ↦ rw p (
            IsEnd-map (suc root) root trees (tree ∷ trees) s s (rest s) (λ t v. before_it p v)
              (walk_roots-IsEnd (suc root) trees s h))
        | inr p ↦ rw p (elim (Bool-cases (ends root [])) [
          | inl q ↦ rw q tt
          | inr q ↦ rw q (
              IsEnd-then_walk (VisitsRoot root tree s) root (tree ∷ trees) s
                (walk_nodes l root cursor (ends root) (list_file root) [] tree s) rest
                (walk_nodes-Within l root cursor (ends root) (list_file root) [] tree s h)
                (Leads-walk_nodes l root cursor (ends root) (list_file root) [] tree s)
                (λ u k v.
                  IsEnd-map (suc root) root trees (tree ∷ trees) u s (rest u)
                    (λ t w. a_root p q v w) (walk_roots-IsEnd (suc root) trees u k)))
        ])
      ]
