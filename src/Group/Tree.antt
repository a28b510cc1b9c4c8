-- ===== src/Group/Tree.antt =====
-- crates/messenger/src/group.rs: the ratchet tree, an array of nodes with the indices of a heap.
use shadowgram.Base.{
  ℕ, zero, suc, ◌+◌, ◌-◌, ◌*◌, ◌/◌, ◌%◌, String, Option, none, some, List, [], ◌∷◌, ◌++◌, length,
  ltb, if◌then◌else◌, Bytes, string_Eq, lookup, insert, remove, Result, ok, err, u64_mod,
}
use shadowgram.Group.{GroupError, member_not_found}

pub record TreeNode : Type 0 where
  pub public_key : Option Bytes
  pub encrypted_path_secrets : Option Bytes
  pub parent : Option ℕ
  pub left : Option ℕ
  pub right : Option ℕ

pub record RatchetTree : Type 0 where
  pub nodes : List TreeNode
  pub leaf_indices : List (String × ℕ)
  pub generation : ℕ

unfoldable pub new : RatchetTree
new = record { nodes = []; leaf_indices = []; generation = 0 }

-- `(i < num_nodes).then_some(i)`
abbrev then_some : ℕ → ℕ → Option ℕ
then_some i num_nodes = if ltb i num_nodes then some i else none

-- The loop of `rebalance`, from index `i` on.
unfoldable pub rebalance_from : ℕ → ℕ → List TreeNode → List TreeNode
rebalance_from i num_nodes [] = []
rebalance_from i num_nodes (node ∷ nodes) =
    record node {
      parent = if ltb 0 i then some ((i - 1) / 2) else none;
      left = then_some (2 * i + 1) num_nodes;
      right = then_some (2 * i + 2) num_nodes;
    }
    ∷ rebalance_from (suc i) num_nodes nodes

unfoldable pub rebalance : RatchetTree → RatchetTree
unfolding rebalance_from
rebalance t = record t {
  nodes = rebalance_from 0 (length t.nodes) t.nodes;
  generation = (t.generation + 1) % u64_mod;
}

unfoldable pub add_leaf : RatchetTree → String → Bytes → RatchetTree × ℕ
unfolding rebalance
add_leaf t member_fingerprint key_package = (
  rebalance (record t {
    nodes = t.nodes ++ leaf ∷ [];
    leaf_indices = insert member_fingerprint (length t.nodes) t.leaf_indices;
  }),
  length t.nodes,
)
  where
    leaf : TreeNode
    leaf = record {
      public_key = some key_package;
      encrypted_path_secrets = none;
      parent = none;
      left = none;
      right = none;
    }

-- `if let Some(node) = self.nodes.get_mut(i) { node = f(node) }`
unfoldable pub update_node : ℕ → (TreeNode → TreeNode) → List TreeNode → List TreeNode
update_node i f [] = []
update_node zero f (node ∷ nodes) = f node ∷ nodes
update_node (suc i) f (node ∷ nodes) = node ∷ update_node i f nodes

abbrev pub blank : TreeNode → TreeNode
blank node = record node { public_key = none; encrypted_path_secrets = none }

unfoldable pub remove_leaf : RatchetTree → String → RatchetTree × Result (Unit {0}) GroupError
unfolding rebalance update_node
remove_leaf t member_fingerprint = elim (lookup member_fingerprint t.leaf_indices) [
  | none ↦ (t, err (member_not_found member_fingerprint))
  | some leaf_index ↦ (
    rebalance (record t {
      nodes = update_node leaf_index blank t.nodes;
      leaf_indices = remove member_fingerprint t.leaf_indices;
    }),
    ok tt,
  )
]
