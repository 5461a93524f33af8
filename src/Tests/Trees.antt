-- ===== src/Tests/Trees.antt =====
-- Nodes, and trees of one node.
use wamount.Base.{
  ℕ, ◌≡◌, ◌+◌, ◌<◌, ◌≤◌, ◌==◌, if◌then◌else◌, false, refl, arith, inr, Option, some, done, fault,
  true,
}
use wamount.Bytes.{Bytes, fill, word, region, window, memcmp, memcmp_from}
use wamount.Blocks.{Blocks}
use wamount.Apfs.Nodes.{btree_node_phys, nloc}
use wamount.Apfs.Layout.{view}
use wamount.Apfs.Objects.{obj_phys}
use wamount.Btree.{
  Btree, search_node, lookup, search_from, match_place, compare_keys, get_key_value,
}
use wamount.Btree
use wamount.Btree.Entries.{IsWellFormed, IsTreeNode, head, toc, nkeys}
use wamount.Btree.Search.{FirstMatch, search_node-FirstMatch, search_node-fault}
use wamount.Btree.Soundness.{Holds, search_node-Holds}
use wamount.Btree.Lookup.{lookup-root_only}
use wamount.Tests.Data.{below_two, two_keys, cut_node, other_block, key_7}

two_keys-IsTreeNode : IsTreeNode two_keys
unfolding head btree_node_phys obj_phys nloc word
two_keys-IsTreeNode = inr refl

two_keys-IsWellFormed : IsWellFormed two_keys
unfolding toc nkeys head btree_node_phys obj_phys nloc word
two_keys-IsWellFormed = record {
  below = omega arith;
  table = omega arith;
  keys =
      below_two (λ i. (toc two_keys i).off + (toc two_keys i).len ≤ 78) (omega arith) (omega arith);
  values =
      below_two (λ i. (toc two_keys (2 + i)).off + (toc two_keys (2 + i)).len ≤ 78) (omega arith)
        (omega arith);
}

search_node-FirstMatch_example :
    (r : Option Bytes) × (search_node two_keys key_7 ≡ done r) × FirstMatch two_keys key_7 r
search_node-FirstMatch_example =
    search_node-FirstMatch two_keys key_7 two_keys-IsWellFormed two_keys-IsTreeNode

cut_node-IsTreeNode : IsTreeNode cut_node
unfolding head btree_node_phys obj_phys nloc word
cut_node-IsTreeNode = inr refl

cut_node_keys : nkeys cut_node ≡ 2
unfolding nkeys head btree_node_phys obj_phys nloc word
cut_node_keys = refl

search_node-fault_example : search_node cut_node key_7 ≡ fault
search_node-fault_example =
    search_node-fault cut_node key_7 (omega arith) cut_node-IsTreeNode
      (omega (arith, cut_node_keys)) (omega (arith, cut_node_keys)) (omega (arith, cut_node_keys))

-- A container of blocks of 78 bytes that answers every read with the same node.
abbrev blocks : Blocks
blocks = record {
  block_size = 78;
  read_block = λ block size. record { succeeded = true; delivered = two_keys };
}

-- One that has the node at block 5 alone.
abbrev one_block : Blocks
one_block = record {
  block_size = 78;
  read_block = λ block size.
      if block == 5
      then record { succeeded = true; delivered = two_keys }
      else record { succeeded = false; delivered = other_block };
}

abbrev tree : Btree
tree = Btree.create 5

lookup-root_only_example :
    lookup tree (some (some blocks)) key_7 ≡ lookup tree (some (some one_block)) key_7
unfolding Btree.create
lookup-root_only_example = lookup-root_only tree blocks one_block key_7 refl refl

-- The value of the key 7 in the node.
abbrev value_7 : Bytes
value_7 = region two_keys 77 1

found_7 : search_node two_keys key_7 ≡ done (some value_7)
unfolding search_node search_from match_place compare_keys get_key_value view fill window memcmp
    memcmp_from btree_node_phys obj_phys nloc word
found_7 = refl

search_node-Holds_example : (i : ℕ) × (i < nkeys two_keys) × Holds two_keys key_7 i value_7
search_node-Holds_example = search_node-Holds two_keys key_7 value_7 found_7
