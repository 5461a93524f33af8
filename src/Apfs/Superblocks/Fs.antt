-- ===== src/Apfs/Superblocks/Fs.antt =====
-- include/apfs_structures.h: the superblock of a volume.
use wamount.Base.{ℕ, List}
use wamount.Bytes.{Bytes}
use wamount.Apfs.Layout.{Layout, ◌>>=◌, member, uint, uint8s, array}
use wamount.Apfs.Objects.{ObjPhys, Uuid, obj_phys, uuid}

pub record WrappedMetaCryptoState : Type 0 where
  pub major_version : ℕ
  pub minor_version : ℕ
  pub cpflags : ℕ
  pub persistent_class : ℕ
  pub key_os_version : ℕ
  pub key_revision : ℕ
  pub unused : ℕ

unfoldable pub wrapped_meta_crypto_state : Layout WrappedMetaCryptoState
wrapped_meta_crypto_state = do
  major_version ← uint 2
  minor_version ← uint 2
  cpflags ← uint 4
  persistent_class ← uint 4
  key_os_version ← uint 4
  key_revision ← uint 2
  unused ← uint 2
  member (record {
    major_version = major_version;
    minor_version = minor_version;
    cpflags = cpflags;
    persistent_class = persistent_class;
    key_os_version = key_os_version;
    key_revision = key_revision;
    unused = unused;
  })

pub record ApfsModifiedBy : Type 0 where
  pub id : Bytes
  pub timestamp : ℕ
  pub last_xid : ℕ

unfoldable pub apfs_modified_by : Layout ApfsModifiedBy
apfs_modified_by = do
  id ← uint8s 32
  timestamp ← uint 8
  last_xid ← uint 8
  member (record { id = id; timestamp = timestamp; last_xid = last_xid })

pub record ApfsSuperblock : Type 0 where
  pub apfs_o : ObjPhys
  pub apfs_magic : ℕ
  pub apfs_fs_index : ℕ
  pub apfs_features : ℕ
  pub apfs_readonly_compatible_features : ℕ
  pub apfs_incompatible_features : ℕ
  pub apfs_unmount_time : ℕ
  pub apfs_fs_reserve_block_count : ℕ
  pub apfs_fs_quota_block_count : ℕ
  pub apfs_fs_alloc_count : ℕ
  pub apfs_meta_crypto : WrappedMetaCryptoState
  pub apfs_root_tree_type : ℕ
  pub apfs_extentref_tree_type : ℕ
  pub apfs_snap_meta_tree_type : ℕ
  pub apfs_omap_oid : ℕ
  pub apfs_root_tree_oid : ℕ
  pub apfs_extentref_tree_oid : ℕ
  pub apfs_snap_meta_tree_oid : ℕ
  pub apfs_revert_to_xid : ℕ
  pub apfs_revert_to_sblock_oid : ℕ
  pub apfs_next_obj_id : ℕ
  pub apfs_num_files : ℕ
  pub apfs_num_directories : ℕ
  pub apfs_num_symlinks : ℕ
  pub apfs_num_other_fsobjects : ℕ
  pub apfs_num_snapshots : ℕ
  pub apfs_total_blocks_alloced : ℕ
  pub apfs_total_blocks_freed : ℕ
  pub apfs_vol_uuid : Uuid
  pub apfs_last_mod_time : ℕ
  pub apfs_fs_flags : ℕ
  pub apfs_formatted_by : ApfsModifiedBy
  pub apfs_modified_by : List ApfsModifiedBy
  pub apfs_volname : Bytes
  pub apfs_next_doc_id : ℕ
  pub apfs_role : ℕ
  pub apfs_reserved : ℕ
  pub apfs_root_to_xid : ℕ
  pub apfs_er_state_oid : ℕ
  pub apfs_cloneinfo_id_epoch : ℕ
  pub apfs_cloneinfo_xid : ℕ
  pub apfs_snap_meta_ext_oid : ℕ
  pub apfs_volume_group_id : Uuid
  pub apfs_integrity_meta_oid : ℕ
  pub apfs_fext_tree_oid : ℕ
  pub apfs_fext_tree_type : ℕ
  pub apfs_reserved_type : ℕ
  pub apfs_reserved_oid : ℕ

unfoldable pub apfs_superblock : Layout ApfsSuperblock
apfs_superblock = do
  apfs_o ← obj_phys
  apfs_magic ← uint 4
  apfs_fs_index ← uint 4
  apfs_features ← uint 8
  apfs_readonly_compatible_features ← uint 8
  apfs_incompatible_features ← uint 8
  apfs_unmount_time ← uint 8
  apfs_fs_reserve_block_count ← uint 8
  apfs_fs_quota_block_count ← uint 8
  apfs_fs_alloc_count ← uint 8
  apfs_meta_crypto ← wrapped_meta_crypto_state
  apfs_root_tree_type ← uint 4
  apfs_extentref_tree_type ← uint 4
  apfs_snap_meta_tree_type ← uint 4
  apfs_omap_oid ← uint 8
  apfs_root_tree_oid ← uint 8
  apfs_extentref_tree_oid ← uint 8
  apfs_snap_meta_tree_oid ← uint 8
  apfs_revert_to_xid ← uint 8
  apfs_revert_to_sblock_oid ← uint 8
  apfs_next_obj_id ← uint 8
  apfs_num_files ← uint 8
  apfs_num_directories ← uint 8
  apfs_num_symlinks ← uint 8
  apfs_num_other_fsobjects ← uint 8
  apfs_num_snapshots ← uint 8
  apfs_total_blocks_alloced ← uint 8
  apfs_total_blocks_freed ← uint 8
  apfs_vol_uuid ← uuid
  apfs_last_mod_time ← uint 8
  apfs_fs_flags ← uint 8
  apfs_formatted_by ← apfs_modified_by
  apfs_modified_by ← array 8 apfs_modified_by
  apfs_volname ← uint8s 256
  apfs_next_doc_id ← uint 4
  apfs_role ← uint 2
  apfs_reserved ← uint 2
  apfs_root_to_xid ← uint 8
  apfs_er_state_oid ← uint 8
  apfs_cloneinfo_id_epoch ← uint 8
  apfs_cloneinfo_xid ← uint 8
  apfs_snap_meta_ext_oid ← uint 8
  apfs_volume_group_id ← uuid
  apfs_integrity_meta_oid ← uint 8
  apfs_fext_tree_oid ← uint 8
  apfs_fext_tree_type ← uint 4
  apfs_reserved_type ← uint 4
  apfs_reserved_oid ← uint 8
  member (record {
    apfs_o = apfs_o;
    apfs_magic = apfs_magic;
    apfs_fs_index = apfs_fs_index;
    apfs_features = apfs_features;
    apfs_readonly_compatible_features = apfs_readonly_compatible_features;
    apfs_incompatible_features = apfs_incompatible_features;
    apfs_unmount_time = apfs_unmount_time;
    apfs_fs_reserve_block_count = apfs_fs_reserve_block_count;
    apfs_fs_quota_block_count = apfs_fs_quota_block_count;
    apfs_fs_alloc_count = apfs_fs_alloc_count;
    apfs_meta_crypto = apfs_meta_crypto;
    apfs_root_tree_type = apfs_root_tree_type;
    apfs_extentref_tree_type = apfs_extentref_tree_type;
    apfs_snap_meta_tree_type = apfs_snap_meta_tree_type;
    apfs_omap_oid = apfs_omap_oid;
    apfs_root_tree_oid = apfs_root_tree_oid;
    apfs_extentref_tree_oid = apfs_extentref_tree_oid;
    apfs_snap_meta_tree_oid = apfs_snap_meta_tree_oid;
    apfs_revert_to_xid = apfs_revert_to_xid;
    apfs_revert_to_sblock_oid = apfs_revert_to_sblock_oid;
    apfs_next_obj_id = apfs_next_obj_id;
    apfs_num_files = apfs_num_files;
    apfs_num_directories = apfs_num_directories;
    apfs_num_symlinks = apfs_num_symlinks;
    apfs_num_other_fsobjects = apfs_num_other_fsobjects;
    apfs_num_snapshots = apfs_num_snapshots;
    apfs_total_blocks_alloced = apfs_total_blocks_alloced;
    apfs_total_blocks_freed = apfs_total_blocks_freed;
    apfs_vol_uuid = apfs_vol_uuid;
    apfs_last_mod_time = apfs_last_mod_time;
    apfs_fs_flags = apfs_fs_flags;
    apfs_formatted_by = apfs_formatted_by;
    apfs_modified_by = apfs_modified_by;
    apfs_volname = apfs_volname;
    apfs_next_doc_id = apfs_next_doc_id;
    apfs_role = apfs_role;
    apfs_reserved = apfs_reserved;
    apfs_root_to_xid = apfs_root_to_xid;
    apfs_er_state_oid = apfs_er_state_oid;
    apfs_cloneinfo_id_epoch = apfs_cloneinfo_id_epoch;
    apfs_cloneinfo_xid = apfs_cloneinfo_xid;
    apfs_snap_meta_ext_oid = apfs_snap_meta_ext_oid;
    apfs_volume_group_id = apfs_volume_group_id;
    apfs_integrity_meta_oid = apfs_integrity_meta_oid;
    apfs_fext_tree_oid = apfs_fext_tree_oid;
    apfs_fext_tree_type = apfs_fext_tree_type;
    apfs_reserved_type = apfs_reserved_type;
    apfs_reserved_oid = apfs_reserved_oid;
  })
