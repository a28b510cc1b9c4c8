-- ===== src/Group/Growth.antt =====
-- crates/messenger/src/group.rs: the index in the path update of a commit, the generation of the
-- committer's tree, against the number of its nodes.
use shadowgram.Base.{
  ℕ, zero, suc, ◌+◌, ◌%◌, ◌≤◌, ◌<◌, ◌≡◌, lookup, string_Eq, refl, ap, ◌∙◌, String, some, List, [],
  ◌∷◌, Bytes, ok, u64_mod, arith, length, length-append, Option-cases, inl, inr,
}
use shadowgram.Group.{Commit, Crypto, PathUpdate}
use shadowgram.Group.Tree.{
  RatchetTree, TreeNode, rebalance_from, add_leaf, remove_leaf, update_node, blank,
}
use shadowgram.Group.State.{
  GroupState, build_commit, enter_epoch, add_member, remove_member, update_keys, process_commit,
  apply_updates,
}
use shadowgram.Group.Convergence.{Change, adds, removes, updates, change}

length-rebalance_from :
    (i n : ℕ) (nodes : List TreeNode) → length (rebalance_from i n nodes) ≡ length nodes
unfolding rebalance_from
length-rebalance_from i n [] = refl
length-rebalance_from i n (x ∷ nodes) = ap suc (length-rebalance_from (suc i) n nodes)

length-update_node :
    (i : ℕ) (f : TreeNode → TreeNode) (nodes : List TreeNode)
    → length (update_node i f nodes) ≡ length nodes
unfolding update_node
length-update_node i f [] = refl
length-update_node zero f (x ∷ nodes) = refl
length-update_node (suc i) f (x ∷ nodes) = ap suc (length-update_node i f nodes)

update_node_outside :
    (i : ℕ) (f : TreeNode → TreeNode) (nodes : List TreeNode)
    → length nodes ≤ i
    → update_node i f nodes ≡ nodes
unfolding update_node
update_node_outside i f [] h = refl
update_node_outside zero f (x ∷ nodes) h = absurd (omega arith)
update_node_outside (suc i) f (x ∷ nodes) h =
    ap (◌∷◌ x) (update_node_outside i f nodes (omega arith))

-- The tree has had at least as many changes as it has nodes.
abbrev pub IsGrown : RatchetTree → Type 0
IsGrown t = length t.nodes ≤ t.generation

abbrev pub update_at : ℕ → Bytes → PathUpdate
update_at i key = record { node_index = i; encrypted_secret = []; new_public_key = key }

apply_one :
    (i : ℕ) (key : Bytes) (nodes : List TreeNode)
    → length nodes ≤ i
    → apply_updates (update_at i key ∷ []) nodes ≡ nodes
unfolding apply_updates
apply_one i key nodes h = update_node_outside i _ nodes h

nodes-add_leaf :
    (t : RatchetTree) (fp : String) (key : Bytes)
    → (length (add_leaf t fp key).0.nodes ≡ length t.nodes + 1)
      × ((add_leaf t fp key).0.generation ≡ (t.generation + 1) % u64_mod)
unfolding add_leaf
nodes-add_leaf t fp key = (length-rebalance_from 0 _ _ ∙ length-append t.nodes _, refl)

nodes-remove_leaf :
    (t : RatchetTree) (fp : String)
    → (remove_leaf t fp).1 ≡ ok tt
    → (length (remove_leaf t fp).0.nodes ≡ length t.nodes)
      × ((remove_leaf t fp).0.generation ≡ (t.generation + 1) % u64_mod)
unfolding remove_leaf
nodes-remove_leaf t fp h = elim (Option-cases (lookup fp t.leaf_indices)) [
  | inl e ↦ absurd (ground arith)
  | inr (i, e) ↦
      rw (e, remove_leaf) (length-rebalance_from 0 _ _ ∙ length-update_node i blank t.nodes, refl)
]

-- The effect of a change on the tree: it stays grown, it keeps its nodes, and the index of the
-- path update is its generation.
module _ (crypto : Crypto) where
  pub record Outgrows (s : GroupState) (c : Commit) (s' : GroupState) : Type 0 where
    pub grown : IsGrown s'.tree
    pub more : length s.tree.nodes ≤ length s'.tree.nodes
    pub update : (key : Bytes) × (c.path_updates ≡ update_at s'.tree.generation key ∷ [])

  change-Outgrows :
      (s : GroupState) (x : Change) (c : Commit)
      → (change crypto s x).1 ≡ ok c
      → IsGrown s.tree
      → s.tree.generation + 1 < u64_mod
      → Outgrows s c (change crypto s x).0
  unfolding change add_member remove_member update_keys build_commit enter_epoch
  change-Outgrows s (adds m) c made grown room =
      let h = nodes-add_leaf s.tree m.fingerprint m.key_package in
      record {
        grown = ground (arith, h);
        more = ground (arith, h);
        update = (m.key_package, ground arith);
      }
  change-Outgrows s (removes now fp) c made grown room =
      let h = nodes-remove_leaf s.tree fp in
      record { grown = ground (arith, h); more = ground (arith, h); update = ([], ground arith) }
  change-Outgrows s (updates key) c made grown room =
      let h =
        length-update_node s.my_leaf_index (λ node. record node { public_key = some key })
          s.tree.nodes in
      record { grown = ground (arith, h); more = ground (arith, h); update = (key, ground arith) }

  -- The path update of a commit points outside of every tree that is no larger than the
  -- committer's: a member that processes the commit keeps its nodes as they are, so that a key
  -- that was added, blanked or replaced does not reach it. The tree stays one of which this holds.
  pub nodes-process_commit :
      (s t : GroupState) (x : Change) (c : Commit)
      → (change crypto s x).1 ≡ ok c
      → IsGrown s.tree
      → s.tree.generation + 1 < u64_mod
      → length t.tree.nodes ≤ length s.tree.nodes
      → ((process_commit crypto t c).0.tree.nodes ≡ t.tree.nodes)
        × IsGrown (change crypto s x).0.tree
  unfolding process_commit enter_epoch
  nodes-process_commit s t x c made grown room small =
      let o = change-Outgrows s x c made grown room in
      let (key, e) = o.update in
      let i = (change crypto s x).0.tree.generation in
      let same : apply_updates c.path_updates t.tree.nodes ≡ t.tree.nodes =
        ap (λ us. apply_updates us t.tree.nodes) e
        ∙ apply_one i key t.tree.nodes (omega (arith, o.grown, o.more)) in
      (ground (arith, same), o.grown)
