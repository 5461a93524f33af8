-- ===== src/Btree/Entries.antt =====
-- A node as a plain list of keys and values, and when all of it lies inside the node.
use native.Mathlib.Decide.{dec_lt}
use wamount.Base.{ℕ, ◌+◌, ◌%◌, ◌^◌, ◌≤◌, ◌<◌, ◌≡◌, arith, some, done, fault, le→leb, lt→leb, ◌⊎◌}
use wamount.Bytes.{Bytes, region}
use wamount.Apfs.Types.{object_type_btree, object_type_btree_node}
use wamount.Apfs.Layout.{Layout, view}
use wamount.Apfs.Nodes.{BtreeNodePhys, Nloc, btree_node_phys, nloc}
use wamount.Apfs.Objects.{obj_phys}
use wamount.Btree.{Place, toc_at, get_key_value}

-- The head of the node, and an entry of its table of contents, wherever they lie.
unfoldable pub head : Bytes → BtreeNodePhys
head node = (btree_node_phys node 0).0

unfoldable pub toc : Bytes → ℕ → Nloc
toc node index = (nloc node (toc_at index)).0

unfoldable pub nkeys : Bytes → ℕ
nkeys node = (head node).btn_nkeys

unfoldable pub key_at : Bytes → ℕ → Bytes
key_at node i = region node (toc node i).off (toc node i).len

-- The values follow the keys in the table.
unfoldable pub value_at : Bytes → ℕ → Bytes
value_at node i = region node (toc node (nkeys node + i)).off (toc node (nkeys node + i)).len

-- The low half of the object's type names a node of a tree.
abbrev pub IsTreeNode : Bytes → Type 0
IsTreeNode node =
    ((head node).btn_o.o_type % 2 ^ 16 ≡ object_type_btree_node)
    ⊎ ((head node).btn_o.o_type % 2 ^ 16 ≡ object_type_btree)

-- The table of contents, the keys and the values lie inside the node, and a node is below 4 GiB.
pub record IsWellFormed (node : Bytes) : Type 0 where
  pub below : node.size < 2 ^ 32
  pub table : toc_at (nkeys node + nkeys node) ≤ node.size
  pub keys : (i : ℕ) → i < nkeys node → (toc node i).off + (toc node i).len ≤ node.size
  pub values :
      (i : ℕ)
      → i < nkeys node
      → (toc node (nkeys node + i)).off + (toc node (nkeys node + i)).len ≤ node.size

view-eq-done :
    {A : Type 0} (m : Layout A) (b : Bytes) (o : ℕ)
    → (m b o).1 ≤ b.size
    → view m b o ≡ done (m b o).0
unfolding view
view-eq-done m b o h = rw (le→leb _ _ h)

pub head-eq-done : (node : Bytes) → 56 ≤ node.size → view btree_node_phys node 0 ≡ done (head node)
unfolding head btree_node_phys obj_phys nloc
head-eq-done node h = view-eq-done btree_node_phys node 0 (omega arith)

pub toc-eq-done :
    (node : Bytes) (i : ℕ)
    → toc_at i + 4 ≤ node.size
    → view nloc node (toc_at i) ≡ done (toc node i)
unfolding toc nloc
toc-eq-done node i h = view-eq-done nloc node (toc_at i) (omega arith)

unfoldable pub place : Bytes → ℕ → Place
place node i = record {
  key = (toc node i).off;
  key_len = (toc node i).len;
  val = (toc node (nkeys node + i)).off;
  val_len = (toc node (nkeys node + i)).len;
}

-- On a well-formed node `getKeyValue` finds the `i`-th entry, and refuses an index past the last.
pub get_key_value-place :
    (node : Bytes) (i : ℕ)
    → IsWellFormed node
    → i < nkeys node
    → get_key_value node i ≡ done (some (place node i))
unfolding get_key_value place nkeys
get_key_value-place node i w h =
    let n : ℕ = nkeys node in
    rw
      (
        head-eq-done node (omega (arith, w.table)),
        lt→leb n i h,
        toc-eq-done node i (omega (arith, w.table)),
        no_wrap,
      )
      (rw (toc-eq-done node (n + i) (omega (arith, w.table))))
  where
    no_wrap : ((head node).btn_nkeys + i) % 2 ^ 32 ≡ (head node).btn_nkeys + i
    no_wrap = omega (arith, w.table, w.below)

view-eq-fault :
    {A : Type 0} (m : Layout A) (b : Bytes) (o : ℕ) → b.size < (m b o).1 → view m b o ≡ fault
unfolding view
view-eq-fault m b o h = rw (lt→leb _ _ h)

pub toc-eq-fault :
    (node : Bytes) (i : ℕ) → node.size < toc_at i + 4 → view nloc node (toc_at i) ≡ fault
unfolding toc nloc
toc-eq-fault node i h = view-eq-fault nloc node (toc_at i) (omega arith)

-- The first entry's value is looked up behind all the keys, wherever that is.
pub get_key_value-fault :
    (node : Bytes)
    → 56 ≤ node.size
    → 0 < nkeys node
    → nkeys node < 2 ^ 32
    → node.size < toc_at (nkeys node) + 4
    → get_key_value node 0 ≡ fault
unfolding get_key_value nkeys
get_key_value-fault node h some_key small past = elim (dec_lt node.size (toc_at 0 + 4)) [
  | yes p ↦ rw (head-eq-done node h, lt→leb _ 0 some_key, toc-eq-fault node 0 p)
  | no p ↦
      rw (head-eq-done node h, lt→leb _ 0 some_key, toc-eq-done node 0 (omega arith), no_wrap)
        (rw (toc-eq-fault node (nkeys node) past))
]
  where
    no_wrap : ((head node).btn_nkeys + 0) % 2 ^ 32 ≡ (head node).btn_nkeys
    no_wrap = omega arith
