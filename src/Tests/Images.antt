-- ===== src/Tests/Images.antt =====
-- A device whose block 7 has the records of a file, and a read from the file down to the device.
use wamount.Base.{
  ℕ, zero, suc, ◌+◌, ◌/◌, ◌%◌, ◌^◌, ◌<◌, ◌≤◌, ◌≡◌, refl, ap, sym, arith, Option, Bool, true, ◌&&◌,
  some, none, done, List, [], ◌∷◌, ◌==◌, ltb, if◌then◌else◌, inl, inr, Bool-cases,
}
use wamount.Bytes.{Bytes, IsBytes, fill, word, window}
use wamount.Blocks.{Blocks}
use wamount.Apfs.Layout.{view}
use wamount.Apfs.Keys.{j_key_obj_id, j_key_obj_type}
use wamount.Apfs.KeyBytes.{IsRecordKey, IsExtentKey}
use wamount.Apfs.Objects.{obj_phys}
use wamount.Apfs.Nodes.{btree_node_phys, nloc}
use wamount.Apfs.Records.{
  j_file_extent_val, j_inode_val, x_field, j_dstream, j_key, j_file_extent_key,
}
use wamount.Btree.{
  Btree, lookup, read_node, search_node, search_from, match_place, compare_keys, get_key_value,
}
use wamount.Btree
use wamount.Btree.Entries.{IsWellFormed, IsTreeNode, head, toc, nkeys, key_at, value_at}
use wamount.Btree.Lookup.{loaded}
use wamount.Btree.Records.{FirstOf, IsRoot}
use wamount.Volume.{FileInfo}
use wamount.Volume.Inode.{inode_info, dstream_size}
use wamount.Volume.Directory.{fresh_info}
use wamount.Volume.Read.Extent.{phys_block}
use wamount.Disk.{Os, DiskReader, read_bytes, read_from, read_block, read_blocks}
use wamount.Disk.Contents.{Device}
use wamount.Disk.Filling.{blocks_of}
use wamount.Disk.Files.{HasFile}
use wamount.Tests.Data.{below_two, file_node, sparse_byte, file_cells}

abbrev pub content : ℕ → ℕ
content i = if i / 256 == 7 then file_node.byte (i % 256) else i % 256

-- Every path opens as handle 1. The state is the position.
abbrev pub os : Os
os = record {
  State = ℕ;
  create_file = λ path s. (some 1, s);
  drive_geometry = λ h s. (some 100000, s);
  get_file_size = λ h s. (none, s);
  set_file_pointer = λ h offset s. (true, offset);
  read_file = λ h count s. (some (record { size = count; byte = λ i. content (s + i) }), s);
  close_handle = λ h s. s;
}

abbrev pub device : Device os 1 content
device = record {
  position = λ s. s;
  seeks = λ offset s e. refl;
  reads_count = λ count s bytes e.
      omega (arith, ap {B = ℕ} (λ (o : Option Bytes). elim o [ none ↦ count | some b ↦ b.size ]) e);
  reads = λ count s bytes i e h.
      sym (ap (λ (o : Option Bytes). elim o [ none ↦ 0 | some b ↦ b.byte i ]) e);
}

abbrev pub reader : DiskReader
reader = record { handle = some 1; disk_size = 100000; device_path = [] }

abbrev pub blocks : Blocks
blocks = blocks_of os reader 0 256

abbrev pub node : Bytes
node = loaded blocks 7

abbrev pub is_small : List (ℕ × ℕ) → Bool
is_small [] = true
is_small ((o, b) ∷ cells) = ltb b 256 && is_small cells

pub sparse_byte-IsBytes :
    (cells : List (ℕ × ℕ)) (i : ℕ) → is_small cells ≡ true → sparse_byte cells i < 256
sparse_byte-IsBytes [] i h = omega arith
sparse_byte-IsBytes ((o, b) ∷ cells) i h =
    ground (arith, h, sparse_byte-IsBytes cells i (ground (arith, h)))

abbrev pub file_info : FileInfo
file_info = record fresh_info { inode = 2; parent_id = 2; mode = 0x81a4; size = 100 }

tree_node : IsTreeNode node
unfolding loaded fill head btree_node_phys obj_phys nloc word blocks_of read_block read_blocks
    read_bytes read_from
tree_node = inr refl

well_formed : IsWellFormed node
unfolding loaded fill toc nkeys head btree_node_phys obj_phys nloc word blocks_of read_block
    read_blocks read_bytes read_from
well_formed = record {
  below = omega arith;
  table = omega arith;
  keys =
      below_two (λ i. (toc node i).off + (toc node i).len ≤ node.size) (omega arith) (omega arith);
  values =
      below_two (λ i. (toc node (2 + i)).off + (toc node (2 + i)).len ≤ node.size) (omega arith)
        (omega arith);
}

pub content-IsBytes : (i : ℕ) → content i < 256
content-IsBytes i = elim (Bool-cases (i / 256 == 7)) [
  | inl e ↦ rw e (sparse_byte-IsBytes file_cells (i % 256) refl)
  | inr e ↦ rw e (omega arith)
]

node-IsBytes : IsBytes node
unfolding loaded fill blocks_of read_block read_blocks read_bytes read_from
node-IsBytes i = ground (arith, content-IsBytes (1792 + i))

pub root : IsRoot (Btree.create 7) blocks
unfolding Btree.create blocks_of read_block read_blocks read_bytes read_from
root = record {
  address = λ e. absurd (omega (arith, e));
  is_read = refl;
  well_formed = well_formed;
  tree_node = tree_node;
  bytes = node-IsBytes;
}

-- The records of the inode and of the extent.
abbrev pub inode_value : Bytes
inode_value = value_at node 0

abbrev pub extent_value : Bytes
extent_value = value_at node 1

pub two_keys : nkeys node ≡ 2
unfolding loaded fill nkeys head btree_node_phys obj_phys nloc word blocks_of read_block read_blocks
    read_bytes read_from
two_keys = refl

pub first_key : IsRecordKey (2 % 2 ^ 60) 3 (key_at node 0)
unfolding key_at loaded fill toc nkeys head btree_node_phys obj_phys nloc j_key word blocks_of
    read_block read_blocks read_bytes read_from j_key_obj_id j_key_obj_type
first_key = record { size = refl; obj_id = refl; obj_type = refl }

pub second_key : IsExtentKey (2 % 2 ^ 60) 0 (key_at node 1)
unfolding key_at loaded fill toc nkeys head btree_node_phys obj_phys nloc j_key j_file_extent_key
    word blocks_of read_block read_blocks read_bytes read_from j_key_obj_id j_key_obj_type
second_key = record { size = refl; obj_id = refl; obj_type = refl; logical_addr = refl }

pub first_size : (key_at node 0).size ≡ 8
unfolding key_at loaded fill toc nkeys head btree_node_phys obj_phys nloc word blocks_of read_block
    read_blocks read_bytes read_from
first_size = refl

extent_size : extent_value.size ≡ 24
unfolding value_at key_at loaded fill toc nkeys head btree_node_phys obj_phys nloc word blocks_of
    read_block read_blocks read_bytes read_from
extent_size = refl

pub told : inode_info 2 inode_value fresh_info ≡ done (some file_info)
unfolding inode_info dstream_size value_at key_at loaded fill toc nkeys head btree_node_phys
    obj_phys nloc word blocks_of read_block read_blocks read_bytes read_from j_inode_val x_field
    j_dstream view window
told = refl

first_kind : ¬ IsExtentKey (2 % 2 ^ 60) 0 (key_at node 0)
first_kind h = absurd (omega (arith, first_size, h.size))

only_first : (P : ℕ → Type 0) → P 0 → (j : ℕ) → j < 1 → P j
only_first P first zero h = first
only_first P first (suc j) h = absurd (omega arith)

pub file : HasFile (Btree.create 7) blocks 2 0 file_info extent_value
unfolding Btree.create
file = record {
  inode_record = inode_value;
  inode_first =
      FirstOf.hit 0 (omega (arith, two_keys)) first_key (λ j h. absurd (omega (arith, h))) refl;
  told = told;
  extent_first =
      FirstOf.hit 1 (omega (arith, two_keys)) second_key
        (only_first (λ j. ¬ IsExtentKey (2 % 2 ^ 60) 0 (key_at node j)) first_kind) refl;
  whole = omega (arith, extent_size);
}

pub ok : (blocks.read_block (phys_block extent_value) 256).succeeded ≡ true
unfolding phys_block j_file_extent_val value_at key_at loaded fill toc nkeys head btree_node_phys
    obj_phys nloc word blocks_of read_block read_blocks read_bytes read_from
ok = refl

pub place : phys_block extent_value ≡ 9
unfolding phys_block j_file_extent_val value_at key_at loaded fill toc nkeys head btree_node_phys
    obj_phys nloc word blocks_of read_block read_blocks read_bytes read_from
place = refl
