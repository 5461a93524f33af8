-- ===== src/Volume/Directory.antt =====
-- `APFSVolume::readDirectory`.
pub mod Listing
use wamount.Base.{
  ℕ, ◌+◌, ◌%◌, ◌^◌, Option, none, some, List, [], ◌∷◌, Result, done, fault, ◌>>=◌, ltb,
  if◌then◌else◌, false,
}
use wamount.Bytes.{Bytes, window, to_list}
use wamount.Blocks.{Blocks}
use wamount.Btree.{BtreeEntry, lookup_range}
use wamount.Apfs.Types.{apfs_type_dir_rec}
use wamount.Apfs.Layout.{view}
use wamount.Apfs.Records.{j_drec_key, j_drec_val}
use wamount.Apfs.Keys.{make_key, key_bytes}
use wamount.Apfs.Sizes.{sizeof_j_drec_key, sizeof_j_drec_val}
use wamount.Volume.{Volume, FileInfo}
use wamount.Volume.Inode.{get_file_info}

-- `FileInfo child_info;`: the name is empty, and `getFileInfo` writes every other member that is used.
abbrev pub fresh_info : FileInfo
fresh_info = record {
  inode = 0;
  name = [];
  size = 0;
  create_time = 0;
  mod_time = 0;
  mode = 0;
  is_directory = false;
  parent_id = 0;
}

-- The length of the name comes from the key and is not held against the key's own size.
unfoldable pub entry_name : Bytes → ℕ → Result (List ℕ)
entry_name key name_len =
    window key sizeof_j_drec_key name_len >>= λ name. done (to_list name 0 name_len)

-- One round of the loop; `none` is an entry that is passed over.
unfoldable pub child_of : (ℕ → Result (Option FileInfo)) → BtreeEntry → Result (Option FileInfo)
unfolding entry_name
child_of info_of entry = if ltb entry.key.size sizeof_j_drec_key then done none else do
  drec_key ← view j_drec_key entry.key 0
  if ltb entry.value.size sizeof_j_drec_val then done none else do
    drec_val ← view j_drec_val entry.value 0
    found ← info_of drec_val.file_id
    elim found [
      | none ↦ done none
      | some info ↦ do
        name ← entry_name entry.key drec_key.name_len
        done (some (record info { name = name }))
    ]

-- The loop over the entries; `info_of` is `getFileInfo` on a fresh struct.
unfoldable pub children : (ℕ → Result (Option FileInfo)) → List BtreeEntry → Result (List FileInfo)
unfolding child_of
children info_of [] = done []
children info_of (entry ∷ entries) = do
  child ← child_of info_of entry
  rest ← children info_of entries
  elim child [ none ↦ done rest | some info ↦ done (info ∷ rest) ]

-- The new `entries`. `lookupRange` never fails, so neither does the call.
unfoldable pub read_directory : Volume → Option Blocks → ℕ → Result (List FileInfo)
read_directory v container inode = elim v.root_tree [
  | none ↦ fault
  | some tree ↦
      let key_min = key_bytes (make_key inode apfs_type_dir_rec) in
      let key_max = key_bytes (make_key ((inode + 1) % 2 ^ 64) apfs_type_dir_rec) in
      children (λ file_id. get_file_info v container file_id fresh_info)
        (lookup_range tree key_min key_max)
]
