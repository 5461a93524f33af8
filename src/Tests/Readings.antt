-- ===== src/Tests/Readings.antt =====
-- The theorems on files, applied to the device of `Images`.
use wamount.Base.{
  ℕ, suc, ◌+◌, ◌*◌, ◌%◌, ◌^◌, ◌<◌, ◌≡◌, refl, arith, Option, true, false, ◌>>=◌, some, none, done,
  [], ◌∷◌,
}
use wamount.Bytes.{Bytes, fill, word, window, memcmp, memcmp_from}
use wamount.Apfs.Layout.{view}
use wamount.Apfs.Keys.{make_key, key_bytes}
use wamount.Apfs.KeyBytes.{IsRecordKey, IsExtentKey}
use wamount.Apfs.Objects.{obj_phys}
use wamount.Apfs.Nodes.{btree_node_phys, nloc}
use wamount.Apfs.Records.{j_inode_val, x_field, j_dstream}
use wamount.Btree.{
  Btree, lookup, read_node, search_node, search_from, match_place, compare_keys, get_key_value,
}
use wamount.Btree
use wamount.Btree.Entries.{nkeys, key_at}
use wamount.Btree.Lookup.{loaded}
use wamount.Btree.Records.{FirstOf}
use wamount.Volume.{FileInfo}
use wamount.Volume.Inode.{inode_info, dstream_size, get_file_info}
use wamount.Volume.Directory.{fresh_info}
use wamount.Volume.Read.{read_file}
use wamount.Volume.Read.Extent.{phys_block}
use wamount.Volume.Records.{get_file_info-FirstOf, info_of, read_of, read_file-FirstOf}
use wamount.Winfsp.{FileContext, fill_file_info}
use wamount.Winfsp.Ending.{Ends, callbacks-Ends}
use wamount.Winfsp.Told.{Tells, file_info-Tells}
use wamount.Winfsp.Callbacks
use wamount.Volume.Inode.Ranges.{IsReadInBytes}
use wamount.Winfsp.Reading.{read-no_extent}
use wamount.Winfsp.Callbacks.{
  Status, read, open_file, security_by_name, list_directory, volume_info,
}
use wamount.Disk.{read_bytes, read_from, read_block, read_blocks}
use wamount.Disk.Filling.{blocks_of}
use wamount.Disk.Files.{read_file-content}
use wamount.Tests.Data.{below_two, volume}
use wamount.Tests.Images.{
  content, os, device, reader, blocks, node, file_info, content-IsBytes, root, inode_value,
  extent_value, two_keys, first_key, second_key, first_size, told, file, ok, place,
}

read_file-content_example :
    (out : Bytes) × (read_file volume (some blocks) 2 0 10 ≡ done (true, out))
    × (out.size ≡ 10)
    × ((i : ℕ) → i < 10 → out.byte i ≡ content (phys_block extent_value * 256 + (0 % 256 + i)))
read_file-content_example =
    read_file-content os 1 content device reader 0 256 refl volume (Btree.create 7) 2 0 10 file_info
      extent_value (omega arith) (omega arith) (omega arith) (omega arith) refl root file refl
      (omega arith) (omega arith) (omega arith) (omega (arith, place)) ok

volume_tree : volume.root_tree ≡ some (Btree.create 7)
volume_tree = refl

get_file_info-FirstOf_example :
    (r : Option Bytes) × FirstOf
      (loaded blocks (Btree.create 7).root_oid)
      (IsRecordKey (2 % 2 ^ 60) 3)
      r
    × (get_file_info volume (some blocks) 2 fresh_info ≡ info_of 2 fresh_info r)
get_file_info-FirstOf_example =
    get_file_info-FirstOf volume (Btree.create 7) blocks 2 fresh_info volume_tree root

read_file-FirstOf_example :
    (found extent : Option Bytes) × FirstOf
      (loaded blocks (Btree.create 7).root_oid)
      (IsRecordKey (2 % 2 ^ 60) 3)
      found
    × FirstOf (loaded blocks (Btree.create 7).root_oid) (IsExtentKey (2 % 2 ^ 60) 0) extent
    × (read_file volume (some blocks) 2 0 10
        ≡ (info_of 2 fresh_info found >>= λ info. read_of blocks 0 10 extent info))
read_file-FirstOf_example =
    read_file-FirstOf volume (Btree.create 7) blocks 2 0 10 volume_tree root (omega arith)

second_kind : ¬ IsExtentKey (2 % 2 ^ 60) 50 (key_at node 1)
second_kind h = absurd (omega (arith, second_key.logical_addr, h.logical_addr))

first_kind_50 : ¬ IsExtentKey (2 % 2 ^ 60) 50 (key_at node 0)
first_kind_50 h = absurd (omega (arith, first_size, h.size))

none_at_50 : (j : ℕ) → j < nkeys node → ¬ IsExtentKey (2 % 2 ^ 60) 50 (key_at node j)
none_at_50 j h =
    below_two (λ i. ¬ IsExtentKey (2 % 2 ^ 60) 50 (key_at node i)) first_kind_50 second_kind j
      (omega (arith, h, two_keys))

read-no_extent_example :
    read volume (some blocks) (record { inode = 2; is_directory = false; size = 100 }) 50 10
    ≡ done (Status.unsuccessful, none)
unfolding Btree.create
read-no_extent_example =
    read-no_extent volume (Btree.create 7) blocks volume_tree root
      (record { inode = 2; is_directory = false; size = 100 }) 50 10 inode_value file_info
      (omega arith)
      (FirstOf.hit 0 (omega (arith, two_keys)) first_key (λ j h. absurd (omega (arith, h))) refl)
      told refl refl (omega arith) none_at_50

root-IsReadInBytes : IsReadInBytes (Btree.create 7) blocks
unfolding Btree.create blocks_of read_block read_blocks read_bytes read_from
root-IsReadInBytes i = content-IsBytes (1792 + i)

found : get_file_info volume (some blocks) 2 fresh_info ≡ done (some file_info)
unfolding get_file_info inode_info dstream_size lookup read_node search_node search_from match_place
    compare_keys get_key_value view fill word window memcmp memcmp_from key_bytes make_key obj_phys
    btree_node_phys nloc j_inode_val x_field j_dstream Btree.create blocks_of read_block read_blocks
    read_bytes read_from
found = refl

asked :
    Callbacks.file_info volume
      (some blocks)
      fresh_info
      (record { inode = 2; is_directory = false; size = 100 })
    ≡ done (Status.success, some (fill_file_info file_info))
unfolding Callbacks.file_info
asked = rw found refl

file_info-Tells_example :
    (new : FileInfo) × (get_file_info volume (some blocks) 2 fresh_info ≡ done (some new))
    × Tells (fill_file_info file_info) new
    × ((fill_file_info file_info).index_number ≡ 2)
file_info-Tells_example =
    file_info-Tells volume (Btree.create 7) blocks
      (record { inode = 2; is_directory = false; size = 100 }) fresh_info (fill_file_info file_info)
      volume_tree root-IsReadInBytes asked

block_size : blocks.block_size ≡ 256
unfolding blocks_of
block_size = refl

callbacks-Ends_example :
    let context : FileContext = record { inode = 2; is_directory = false; size = 100 } in
    Ends (read volume (some blocks) context 50 10)
    × Ends (Callbacks.file_info volume (some blocks) fresh_info context)
    × Ends (open_file volume (some blocks) fresh_info (b'/' ∷ []))
    × Ends (security_by_name volume (some blocks) fresh_info (b'/' ∷ []))
    × Ends
        (list_directory volume (some blocks) ℕ (λ told n. (true, suc n)) (λ name. true) context 0)
    × Ends (volume_info volume (some blocks))
callbacks-Ends_example =
    callbacks-Ends blocks (omega (arith, block_size)) (omega (arith, block_size)) volume
      (Btree.create 7) volume_tree root (record { inode = 2; is_directory = false; size = 100 })
      fresh_info (b'/' ∷ []) 50 10 ℕ (λ told n. (true, suc n)) (λ name. true) 0 (omega arith)
      (omega arith)
