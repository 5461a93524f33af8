-- ===== src/Btree.antt =====
-- src/apfs/btree.h and btree.cpp. A tree holds a weak pointer to its volume, and the volume one to its
-- container: `lock` is what the two `lock()` calls give, `none` for an object that is gone.
pub mod Order
pub mod Entries
pub mod Search
pub mod Soundness
pub mod Lookup
pub mod Records
use Prim.Native.Nat.{compare}
use wamount.Base.{
  ℕ, zero, suc, ◌+◌, ◌*◌, ◌%◌, ◌^◌, ◌-◌, min, bit_and, Bool, true, false, not, ◌||◌, Option, none,
  some, List, [], Ordering, Result, done, fault, ◌>>=◌, ltb, leb, ◌==◌, if◌then◌else◌,
}
use wamount.Bytes.{Bytes, zeros, fill, region, window, memcmp}
use wamount.Blocks.{Blocks}
use wamount.Apfs.Types.{object_type_btree, object_type_btree_node}
use wamount.Apfs.Layout.{view}
use wamount.Apfs.Nodes.{BtreeInfo, btree_node_phys, nloc}

pub record BtreeEntry : Type 0 where
  pub key : Bytes
  pub value : Bytes

pub record Btree : Type 0 where
  pub root_oid : ℕ
  pub tree_info : BtreeInfo

abbrev pub Lock : Type 0
Lock = Option (Option Blocks)

unfoldable pub create : ℕ → Btree
create root_oid = record {
  root_oid = root_oid;
  tree_info = record { bt_flags = 0; bt_node_size = 0; bt_key_size = 0; bt_val_size = 0 };
}

unfoldable pub init : Btree → Bool
init t = not (t.root_oid == 0)

-- `std::vector::resize`
abbrev resize : Bytes → ℕ → Bytes
resize b n = record { size = n; byte = λ i. if ltb i b.size then b.byte i else 0 }

-- The result is what the function returns, with the new `node_data`.
unfoldable pub read_node : Lock → ℕ → Bytes → Bool × Bytes
read_node none node_oid node_data = (false, node_data)
read_node (some none) node_oid node_data = (false, node_data)
read_node (some (some container)) node_oid node_data =
    let reply = container.read_block node_oid container.block_size in
    (reply.succeeded, fill (resize node_data container.block_size) reply.delivered)

-- Where a key and its value stand in the node: the four results of `getKeyValue`.
pub record Place : Type 0 where
  pub key : ℕ
  pub key_len : ℕ
  pub val : ℕ
  pub val_len : ℕ

-- The offset of `btn_data`, where the table of contents begins; an entry of it is 4 bytes.
abbrev pub toc_at : ℕ → ℕ
toc_at index = 56 + 4 * index

-- `node->btn_nkeys + index` is a `uint32_t`.
unfoldable pub get_key_value : Bytes → ℕ → Result (Option Place)
get_key_value node_data index = do
  node ← view btree_node_phys node_data 0
  if leb node.btn_nkeys index then done none else do
    key_loc ← view nloc node_data (toc_at index)
    val_loc ← view nloc node_data (toc_at ((node.btn_nkeys + index) % 2 ^ 32))
    done (
        some (record {
          key = key_loc.off;
          key_len = key_loc.len;
          val = val_loc.off;
          val_len = val_loc.len;
        }))

-- The arguments are the memory from each pointer on, and the two sizes.
unfoldable pub compare_keys : Bytes → ℕ → Bytes → ℕ → Result Ordering
compare_keys key1 size1 key2 size2 = do
  cmp ← memcmp (min size1 size2) key1 key2
  elim cmp [
    | Ordering.lt ↦ done Ordering.lt
    | Ordering.gt ↦ done Ordering.gt
    | Ordering.eq ↦
        if ltb size1 size2
        then done Ordering.lt
        else if ltb size2 size1
        then done Ordering.gt
        else done Ordering.eq
  ]

-- The memory from a pointer into the node up to the node's end.
abbrev pub onward : Bytes → ℕ → Bytes
onward b offset = region b offset (b.size - offset)

abbrev is_eq : Ordering → Bool
is_eq Ordering.lt = false
is_eq Ordering.eq = true
is_eq Ordering.gt = false

-- One round of the loop on an entry: `some` is the value that is returned.
unfoldable pub match_place : Bytes → Bytes → Option Place → Result (Option Bytes)
unfolding compare_keys
match_place node_data key none = done none
match_place node_data key (some place) = do
  cmp ← compare_keys key key.size (onward node_data place.key) place.key_len
  if is_eq cmp
      then (window node_data place.val place.val_len >>= λ value. done (some value))
      else done none

-- The rounds `i`, `i + 1`, … of the loop, as many as are left.
unfoldable pub search_from : ℕ → ℕ → Bytes → Bytes → Result (Option Bytes)
search_from zero i node_data key = done none
search_from (suc left) i node_data key =
    let next = search_from left (i + 1) node_data key in
    do
      place ← get_key_value node_data i
      hit ← match_place node_data key place
      elim hit [ some value ↦ done (some value) | none ↦ next ]

-- `none` is `found == false`; the function itself always returns true.
unfoldable pub search_node : Bytes → Bytes → Result (Option Bytes)
search_node node_data key = do
  node ← view btree_node_phys node_data 0
  let obj_type = bit_and node.btn_o.o_type 0xffff
  if not (obj_type == object_type_btree_node || obj_type == object_type_btree)
      then done none
      else search_from node.btn_nkeys 0 node_data key

-- The `while` loop ends in a `break`, so it makes one round at most: the root is searched, and no
-- child is. `none` is the result false.
unfoldable pub lookup : Btree → Lock → Bytes → Result (Option Bytes)
lookup t lock key =
    if t.root_oid == 0
    then done none
    else let (read, node_data) = read_node lock t.root_oid (zeros 0) in
      if not read then done none else search_node node_data key

-- The value is the new `entries`; the function always returns true.
unfoldable pub lookup_range : Btree → Bytes → Bytes → List BtreeEntry
lookup_range t key_min key_max = []

unfoldable pub enumerate : Btree → (BtreeEntry → Bool) → Bool
enumerate t callback = true
