-- ===== src/Tests/Whole.antt =====
-- A device with a container, a volume and a file, and a read through the program that has mounted it.
use native.Mathlib.Decide.{dec_lt}
use wamount.Base.{
  ℕ, zero, suc, ◌+◌, ◌*◌, ◌/◌, ◌%◌, ◌^◌, ◌<◌, ◌≤◌, ◌≡◌, refl, ap, sym, arith, true, false, ◌||◌,
  Option, some, none, Result, done, [], ◌==◌, if◌then◌else◌, inr, ==_iff, subst,
}
use wamount.Bytes.{Bytes, IsBytes, fill, word, window, overrun, c_string, c_string_from}
use wamount.Blocks.{Blocks}
use wamount.Apfs.Layout.{view, array}
use wamount.Apfs.Keys.{j_key_obj_id, j_key_obj_type}
use wamount.Apfs.KeyBytes.{IsRecordKey, IsExtentKey}
use wamount.Apfs.Objects.{obj_phys, uuid, prange, omap_phys}
use wamount.Apfs.Superblocks.{
  nx_superblock, apfs_superblock, wrapped_meta_crypto_state, apfs_modified_by,
}
use wamount.Apfs.Nodes.{btree_node_phys, nloc}
use wamount.Apfs.Records.{
  j_file_extent_val, j_inode_val, x_field, j_dstream, j_key, j_file_extent_key,
}
use wamount.Btree.{Btree}
use wamount.Btree
use wamount.Btree.Entries.{IsWellFormed, IsTreeNode, head, toc, nkeys, key_at, value_at}
use wamount.Btree.Lookup.{loaded}
use wamount.Btree.Records.{FirstOf, IsRoot}
use wamount.Volume.{Volume, FileInfo}
use wamount.Volume
use wamount.Volume.Inode.{inode_info, dstream_size}
use wamount.Volume.Directory.{fresh_info}
use wamount.Volume.Read.Extent.{phys_block}
use wamount.Disk.{
  Os, open_disk, open_device, open_handle, find_size, close, read_block, read_blocks, read_bytes,
  read_from,
}
use wamount.Disk.Contents.{Device}
use wamount.Disk.Files.{HasFile}
use wamount.Container.{Container, accept, get_volume, load_volume, blocks_of}
use wamount.Container
use wamount.Winfsp.{FileContext, mount, mount_named, mount_created}
use wamount.Winfsp
use wamount.Winfsp.Callbacks.{Status, read}
use wamount.Command.{Ending, Run, mount_volume, start_container, start, disk_of}
use wamount.Command.Contents.{start-content, volume_blocks}
use wamount.Tests.Data.{below_two, file_cells, sparse_byte, container_byte}
use wamount.Tests.Commands.{
  same, options, reader, file_system, driver_state, held_container, held_volume,
}
use wamount.Tests.Mounts.{driver}
use wamount.Tests.Images.{sparse_byte-IsBytes}

-- Block 7 has the records of a file, and blocks 0 and 50 the superblocks.
abbrev content : ℕ → ℕ
content i =
    if i / 4096 == 7
    then sparse_byte file_cells (i % 4096)
    else if i / 4096 == 0 || i / 4096 == 50
    then container_byte (i / 4096) (i % 4096)
    else i % 256

-- Every path opens as handle 1. The state is the position.
abbrev os : Os
os = record {
  State = ℕ;
  create_file = λ path s. (some 1, s);
  drive_geometry = λ h s. (some 1000000, s);
  get_file_size = λ h s. (none, s);
  set_file_pointer = λ h offset s. (true, offset);
  read_file = λ h count s. (some (record { size = count; byte = λ i. content (s + i) }), s);
  close_handle = λ h s. s;
}

abbrev device : Device os 1 content
device = record {
  position = λ s. s;
  seeks = λ offset s e. refl;
  reads_count = λ count s bytes e.
      omega (arith, ap {B = ℕ} (λ (o : Option Bytes). elim o [ none ↦ count | some b ↦ b.size ]) e);
  reads = λ count s bytes i e h.
      sym (ap (λ (o : Option Bytes). elim o [ none ↦ 0 | some b ↦ b.byte i ]) e);
}

ending : Result (Run driver.State)
ending = start os driver same same options 0 ([], [])

container : Container
container = held_container Container.create ending

volume : Volume
volume = held_volume (Volume.create 0) ending

waiting :
    start os driver same same options 0 ([], [])
    ≡ done (record {
      ending = Ending.waits reader container volume file_system driver_state;
      overrun = 2688;
    })
unfolding ending container volume start start_container mount_volume disk_of open_disk open_device
    open_handle find_size close read_block read_blocks read_bytes read_from accept get_volume
    load_volume blocks_of mount mount_named mount_created fill word overrun c_string c_string_from
    view array obj_phys uuid prange omap_phys nx_superblock apfs_superblock
    wrapped_meta_crypto_state apfs_modified_by Container.init Container.create
    Container.read_superblock Container.read_object_map Container.read_block Volume.init
    Volume.create Volume.read_superblock Volume.read_object_map Volume.init_root_tree
    Volume.get_volume_name Btree.create Btree.init Winfsp.create
waiting = refl

sized : container.block_size ≡ 4096
unfolding ending container volume start start_container mount_volume disk_of open_disk open_device
    open_handle find_size close read_block read_blocks read_bytes read_from accept get_volume
    load_volume blocks_of mount mount_named mount_created fill word overrun c_string c_string_from
    view array obj_phys uuid prange omap_phys nx_superblock apfs_superblock
    wrapped_meta_crypto_state apfs_modified_by Container.init Container.create
    Container.read_superblock Container.read_object_map Container.read_block Volume.init
    Volume.create Volume.read_superblock Volume.read_object_map Volume.init_root_tree
    Volume.get_volume_name Btree.create Btree.init Winfsp.create
sized = refl

root_oid : volume.superblock.apfs_root_tree_oid ≡ 7
unfolding ending container volume start start_container mount_volume disk_of open_disk open_device
    open_handle find_size close read_block read_blocks read_bytes read_from accept get_volume
    load_volume blocks_of mount mount_named mount_created fill word overrun c_string c_string_from
    view array obj_phys uuid prange omap_phys nx_superblock apfs_superblock
    wrapped_meta_crypto_state apfs_modified_by Container.init Container.create
    Container.read_superblock Container.read_object_map Container.read_block Volume.init
    Volume.create Volume.read_superblock Volume.read_object_map Volume.init_root_tree
    Volume.get_volume_name Btree.create Btree.init Winfsp.create
root_oid = refl

-- What the volume reads, for a size of blocks.
abbrev blocks : ℕ → Blocks
blocks block_size = record {
  block_size = block_size;
  read_block = λ block size. (read_block os reader block size 0).0;
}

abbrev node : Bytes
node = loaded (blocks 4096) 7

content-IsBytes : (i : ℕ) → i < 4096 → content (28672 + i) < 256
content-IsBytes i h =
    let seventh : ((28672 + i) / 4096 == 7) ≡ true =
      (==_iff ((28672 + i) / 4096) 7).1 (omega arith) in
    rw seventh (sparse_byte-IsBytes file_cells ((28672 + i) % 4096) refl)

node-IsBytes : IsBytes node
unfolding loaded fill read_block read_blocks read_bytes read_from
node-IsBytes i = elim (dec_lt i 4096) [
  | yes h ↦ ground (arith, content-IsBytes i h)
  | no h ↦ ground arith
]

tree_node : IsTreeNode node
unfolding loaded fill toc nkeys head btree_node_phys obj_phys nloc word read_block read_blocks
    read_bytes read_from
tree_node = inr refl

well_formed : IsWellFormed node
unfolding loaded fill toc nkeys head btree_node_phys obj_phys nloc word read_block read_blocks
    read_bytes read_from
well_formed = record {
  below = omega arith;
  table = omega arith;
  keys =
      below_two (λ i. (toc node i).off + (toc node i).len ≤ node.size) (omega arith) (omega arith);
  values =
      below_two (λ i. (toc node (2 + i)).off + (toc node (2 + i)).len ≤ node.size) (omega arith)
        (omega arith);
}

root : IsRoot (Btree.create 7) (blocks 4096)
unfolding Btree.create read_block read_blocks read_bytes read_from
root = record {
  address = λ e. absurd (omega (arith, e));
  is_read = refl;
  well_formed = well_formed;
  tree_node = tree_node;
  bytes = node-IsBytes;
}

abbrev extent_value : Bytes
extent_value = value_at node 1

two_keys : nkeys node ≡ 2
unfolding loaded fill toc nkeys head btree_node_phys obj_phys nloc word read_block read_blocks
    read_bytes read_from
two_keys = refl

first_key : IsRecordKey (2 % 2 ^ 60) 3 (key_at node 0)
unfolding key_at loaded fill toc nkeys head btree_node_phys obj_phys nloc word j_key read_block
    read_blocks read_bytes read_from j_key_obj_id j_key_obj_type
first_key = record { size = refl; obj_id = refl; obj_type = refl }

second_key : IsExtentKey (2 % 2 ^ 60) 0 (key_at node 1)
unfolding key_at loaded fill toc nkeys head btree_node_phys obj_phys nloc word j_key
    j_file_extent_key read_block read_blocks read_bytes read_from j_key_obj_id j_key_obj_type
second_key = record { size = refl; obj_id = refl; obj_type = refl; logical_addr = refl }

first_kind : ¬ IsExtentKey (2 % 2 ^ 60) 0 (key_at node 0)
unfolding key_at loaded fill toc nkeys head btree_node_phys obj_phys nloc word read_block
    read_blocks read_bytes read_from
first_kind h = absurd (omega (arith, h.size))

only_first : (P : ℕ → Type 0) → P 0 → (j : ℕ) → j < 1 → P j
only_first P first zero h = first
only_first P first (suc j) h = absurd (omega arith)

abbrev file_info : FileInfo
file_info = record fresh_info { inode = 2; parent_id = 2; mode = 0x81a4; size = 100 }

told : inode_info 2 (value_at node 0) fresh_info ≡ done (some file_info)
unfolding inode_info dstream_size value_at loaded fill toc nkeys head btree_node_phys obj_phys nloc
    word j_inode_val x_field j_dstream view window read_block read_blocks read_bytes read_from
told = refl

extent_size : extent_value.size ≡ 24
unfolding value_at loaded fill toc nkeys head btree_node_phys obj_phys nloc word read_block
    read_blocks read_bytes read_from
extent_size = refl

place : phys_block extent_value ≡ 9
unfolding phys_block j_file_extent_val value_at loaded fill toc nkeys head btree_node_phys obj_phys
    nloc word read_block read_blocks read_bytes read_from
place = refl

file : HasFile (Btree.create 7) (blocks 4096) 2 0 file_info extent_value
unfolding Btree.create
file = record {
  inode_record = value_at node 0;
  inode_first =
      FirstOf.hit 0 (omega (arith, two_keys)) first_key (λ j h. absurd (omega (arith, h))) refl;
  told = told;
  extent_first =
      FirstOf.hit 1 (omega (arith, two_keys)) second_key
        (only_first (λ j. ¬ IsExtentKey (2 % 2 ^ 60) 0 (key_at node j)) first_kind) refl;
  whole = omega (arith, extent_size);
}

ok : ((blocks 4096).read_block (phys_block extent_value) 4096).succeeded ≡ true
unfolding phys_block j_file_extent_val value_at loaded fill toc nkeys head btree_node_phys obj_phys
    nloc word read_block read_blocks read_bytes read_from
ok = refl

-- The same for the tree of the volume and the blocks of the container.
abbrev tree : Btree
tree = Btree.create volume.superblock.apfs_root_tree_oid

moved :
    (P : Btree → Blocks → Type 0)
    → P (Btree.create 7) (blocks 4096)
    → P tree (blocks container.block_size)
moved P p =
    subst (λ n. P tree (blocks n)) (sym sized)
      (subst (λ oid. P (Btree.create oid) (blocks 4096)) (sym root_oid) p)

abbrev context : FileContext
context = record { inode = 2; is_directory = false; size = 100 }

start-content_example :
    (out : Bytes) × (read volume
        (some (volume_blocks os driver same same 1 content device reader 0 container))
        context
        0
        10
      ≡ done (Status.success, some (10, out)))
    × ((i : ℕ)
        → i < 10
        → out.byte i
          ≡ content
              (phys_block extent_value * container.block_size + (0 % container.block_size + i)))
unfolding blocks_of disk_of Container.read_block
start-content_example =
    start-content os driver same same 1 content device options 0 0 ([], []) driver_state reader
      container volume file_system 2688 context 0 10 file_info extent_value waiting refl
      (omega (arith, sized)) (omega (arith, sized)) (omega arith) (omega arith) (moved IsRoot root)
      (moved (λ t b. HasFile t b 2 0 file_info extent_value) file) refl refl (omega arith)
      (omega arith) (subst (λ n. 10 + 0 % n ≤ n) (sym sized) (omega arith))
      (subst (λ n. phys_block extent_value * n < 2 ^ 64) (sym sized) (omega (arith, place)))
      (subst (λ n. ((blocks n).read_block (phys_block extent_value) n).succeeded ≡ true) (sym sized)
        ok)
