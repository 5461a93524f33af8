-- ===== src/Apfs/Superblocks/Nx.antt =====
-- include/apfs_structures.h: the superblock of a container.
use wamount.Base.{ℕ, List}
use wamount.Apfs.Layout.{Layout, ◌>>=◌, member, uint, array}
use wamount.Apfs.Objects.{ObjPhys, Uuid, Prange, obj_phys, uuid, prange}

pub record NxSuperblock : Type 0 where
  pub nx_o : ObjPhys
  pub nx_magic : ℕ
  pub nx_block_size : ℕ
  pub nx_block_count : ℕ
  pub nx_features : ℕ
  pub nx_readonly_compatible_features : ℕ
  pub nx_incompatible_features : ℕ
  pub nx_uuid : Uuid
  pub nx_next_oid : ℕ
  pub nx_next_xid : ℕ
  pub nx_xp_desc_blocks : ℕ
  pub nx_xp_data_blocks : ℕ
  pub nx_xp_desc_base : ℕ
  pub nx_xp_data_base : ℕ
  pub nx_xp_desc_next : ℕ
  pub nx_xp_data_next : ℕ
  pub nx_xp_desc_index : ℕ
  pub nx_xp_desc_len : ℕ
  pub nx_xp_data_index : ℕ
  pub nx_xp_data_len : ℕ
  pub nx_spaceman_oid : ℕ
  pub nx_omap_oid : ℕ
  pub nx_reaper_oid : ℕ
  pub nx_test_type : ℕ
  pub nx_max_file_systems : ℕ
  pub nx_fs_oid : List ℕ
  pub nx_counters : List ℕ
  pub nx_blocked_out_prange : Prange
  pub nx_evict_mapping_tree_oid : ℕ
  pub nx_flags : ℕ
  pub nx_efi_jumpstart : ℕ
  pub nx_fusion_uuid : Uuid
  pub nx_keylocker : Prange
  pub nx_ephemeral_info : List ℕ
  pub nx_test_oid : ℕ
  pub nx_fusion_mt_oid : ℕ
  pub nx_fusion_wbc_oid : ℕ
  pub nx_fusion_wbc : Prange
  pub nx_newest_mounted_version : ℕ
  pub nx_mkb_locker : Prange

unfoldable pub nx_superblock : Layout NxSuperblock
nx_superblock = do
  nx_o ← obj_phys
  nx_magic ← uint 4
  nx_block_size ← uint 4
  nx_block_count ← uint 8
  nx_features ← uint 8
  nx_readonly_compatible_features ← uint 8
  nx_incompatible_features ← uint 8
  nx_uuid ← uuid
  nx_next_oid ← uint 8
  nx_next_xid ← uint 8
  nx_xp_desc_blocks ← uint 4
  nx_xp_data_blocks ← uint 4
  nx_xp_desc_base ← uint 8
  nx_xp_data_base ← uint 8
  nx_xp_desc_next ← uint 4
  nx_xp_data_next ← uint 4
  nx_xp_desc_index ← uint 4
  nx_xp_desc_len ← uint 4
  nx_xp_data_index ← uint 4
  nx_xp_data_len ← uint 4
  nx_spaceman_oid ← uint 8
  nx_omap_oid ← uint 8
  nx_reaper_oid ← uint 8
  nx_test_type ← uint 4
  nx_max_file_systems ← uint 4
  nx_fs_oid ← array 100 (uint 8)
  nx_counters ← array 32 (uint 8)
  nx_blocked_out_prange ← prange
  nx_evict_mapping_tree_oid ← uint 8
  nx_flags ← uint 8
  nx_efi_jumpstart ← uint 8
  nx_fusion_uuid ← uuid
  nx_keylocker ← prange
  nx_ephemeral_info ← array 4 (uint 8)
  nx_test_oid ← uint 8
  nx_fusion_mt_oid ← uint 8
  nx_fusion_wbc_oid ← uint 8
  nx_fusion_wbc ← prange
  nx_newest_mounted_version ← uint 8
  nx_mkb_locker ← prange
  member (record {
    nx_o = nx_o;
    nx_magic = nx_magic;
    nx_block_size = nx_block_size;
    nx_block_count = nx_block_count;
    nx_features = nx_features;
    nx_readonly_compatible_features = nx_readonly_compatible_features;
    nx_incompatible_features = nx_incompatible_features;
    nx_uuid = nx_uuid;
    nx_next_oid = nx_next_oid;
    nx_next_xid = nx_next_xid;
    nx_xp_desc_blocks = nx_xp_desc_blocks;
    nx_xp_data_blocks = nx_xp_data_blocks;
    nx_xp_desc_base = nx_xp_desc_base;
    nx_xp_data_base = nx_xp_data_base;
    nx_xp_desc_next = nx_xp_desc_next;
    nx_xp_data_next = nx_xp_data_next;
    nx_xp_desc_index = nx_xp_desc_index;
    nx_xp_desc_len = nx_xp_desc_len;
    nx_xp_data_index = nx_xp_data_index;
    nx_xp_data_len = nx_xp_data_len;
    nx_spaceman_oid = nx_spaceman_oid;
    nx_omap_oid = nx_omap_oid;
    nx_reaper_oid = nx_reaper_oid;
    nx_test_type = nx_test_type;
    nx_max_file_systems = nx_max_file_systems;
    nx_fs_oid = nx_fs_oid;
    nx_counters = nx_counters;
    nx_blocked_out_prange = nx_blocked_out_prange;
    nx_evict_mapping_tree_oid = nx_evict_mapping_tree_oid;
    nx_flags = nx_flags;
    nx_efi_jumpstart = nx_efi_jumpstart;
    nx_fusion_uuid = nx_fusion_uuid;
    nx_keylocker = nx_keylocker;
    nx_ephemeral_info = nx_ephemeral_info;
    nx_test_oid = nx_test_oid;
    nx_fusion_mt_oid = nx_fusion_mt_oid;
    nx_fusion_wbc_oid = nx_fusion_wbc_oid;
    nx_fusion_wbc = nx_fusion_wbc;
    nx_newest_mounted_version = nx_newest_mounted_version;
    nx_mkb_locker = nx_mkb_locker;
  })
