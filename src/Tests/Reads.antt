-- ===== src/Tests/Reads.antt =====
-- Reads of a file.
use wamount.Base.{
  ℕ, ◌+◌, ◌%◌, ◌<◌, ◌≤◌, ◌≡◌, refl, arith, true, false, some, done, ◌==◌, ltb, if◌then◌else◌,
}
use wamount.Bytes.{Bytes, region, zeros, fill, word, window, memcmp, memcmp_from, join}
use wamount.Blocks.{Blocks, IsWhole}
use wamount.Apfs.Layout.{view}
use wamount.Apfs.Keys.{make_key, key_bytes, extent_key_bytes}
use wamount.Apfs.Objects.{obj_phys}
use wamount.Apfs.Nodes.{btree_node_phys, nloc}
use wamount.Apfs.Records.{j_file_extent_val, j_inode_val, x_field, j_dstream}
use wamount.Btree.{
  Btree, BtreeEntry, lookup, search_node, search_from, match_place, compare_keys, get_key_value,
  read_node,
}
use wamount.Btree
use wamount.Volume.{FileInfo, create}
use wamount.Volume.Inode.{inode_info, dstream_size, get_file_info}
use wamount.Volume.Directory.{fresh_info}
use wamount.Volume.Read.{read_file, temp_size, read_at, read_extent, blocks_to_read}
use wamount.Volume.Read.Extent.{read_file-bytes, extent_key, phys_block}
use wamount.Winfsp.{FileContext}
use wamount.Winfsp.Callbacks.{Status, read}
use wamount.Winfsp.Transfers.{read-bounds}
use wamount.Tests.Data.{file_node, volume}

-- A container with the node of a file in block 7; its other blocks count up.
abbrev blocks : Blocks
blocks = record {
  block_size = 256;
  read_block = λ block size. record {
    succeeded = true;
    delivered = record {
      size = size;
      byte = λ i. if block == 7 then file_node.byte i else i % 256;
    };
  };
}

blocks-IsWhole : IsWhole blocks
blocks-IsWhole = record { delivers = λ block size h ok. refl }

abbrev file_info : FileInfo
file_info = record fresh_info { inode = 2; parent_id = 2; mode = 0x81a4; size = 100 }

file_found : get_file_info volume (some blocks) 2 fresh_info ≡ done (some file_info)
unfolding get_file_info inode_info dstream_size lookup read_node search_node search_from match_place
    compare_keys get_key_value view fill word window memcmp memcmp_from key_bytes make_key obj_phys
    btree_node_phys nloc j_inode_val x_field j_dstream Btree.create create
file_found = refl

-- The node as `lookup` has read it, and the extent's record in it.
abbrev node : Bytes
node =
    fill (record { size = 256; byte = λ i. if ltb i 0 then 0 else 0 })
      (blocks.read_block 7 256).delivered

abbrev extent_record : Bytes
extent_record = region node 232 24

extent_found :
    lookup (Btree.create 7) (some (some blocks)) (extent_key 2 0) ≡ done (some extent_record)
unfolding lookup read_node search_node search_from match_place compare_keys get_key_value view fill
    word window memcmp memcmp_from join extent_key_bytes make_key obj_phys btree_node_phys nloc
    Btree.create
extent_found = refl

read_file-bytes_example :
    (out : Bytes) × (read_file volume (some blocks) 2 0 10 ≡ done (true, out))
    × (out.size ≡ 10)
    × ((i : ℕ)
        → i < 10
        → out.byte i
          ≡ (blocks.read_block (phys_block extent_record) (temp_size 10 0 256)).delivered.byte
              (0 + i))
read_file-bytes_example =
    read_file-bytes volume (Btree.create 7) blocks 2 0 10 file_info extent_record blocks-IsWhole
      (omega arith) (omega arith) (omega arith) refl file_found refl (omega arith) extent_found
      (omega arith) refl

-- What is open, and the bytes that a read of it delivers.
abbrev context : FileContext
context = record { inode = 2; is_directory = false; size = 100 }

abbrev ten_bytes : Bytes
ten_bytes = region (fill (zeros 256) (blocks.read_block 9 256).delivered) 0 10

ten_read : read volume (some blocks) context 0 10 ≡ done (Status.success, some (10, ten_bytes))
unfolding read read_file read_at read_extent temp_size blocks_to_read extent_key_bytes
    j_file_extent_val join get_file_info inode_info dstream_size lookup read_node search_node
    search_from match_place compare_keys get_key_value view fill word window memcmp memcmp_from
    key_bytes make_key obj_phys btree_node_phys nloc j_inode_val x_field j_dstream Btree.create
    create
ten_read = refl

read-bounds_example : (context.is_directory ≡ false) × (10 ≡ ten_bytes.size) × (10 ≤ 10)
read-bounds_example =
    read-bounds volume (some blocks) context 0 10 10 ten_bytes (omega arith) ten_read
