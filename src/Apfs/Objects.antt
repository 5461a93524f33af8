-- ===== src/Apfs/Objects.antt =====
-- include/apfs_types.h and include/apfs_structures.h: the structs that every object is made of, and
-- the object map. A `paddr_t` is kept as its 64 bits.
use wamount.Base.{ℕ}
use wamount.Bytes.{Bytes}
use wamount.Apfs.Layout.{Layout, ◌>>=◌, member, uint, uint8s}

pub record ObjPhys : Type 0 where
  pub o_cksum : Bytes
  pub o_oid : ℕ
  pub o_xid : ℕ
  pub o_type : ℕ
  pub o_subtype : ℕ

unfoldable pub obj_phys : Layout ObjPhys
obj_phys = do
  o_cksum ← uint8s 8
  o_oid ← uint 8
  o_xid ← uint 8
  o_type ← uint 4
  o_subtype ← uint 4
  member (record {
    o_cksum = o_cksum;
    o_oid = o_oid;
    o_xid = o_xid;
    o_type = o_type;
    o_subtype = o_subtype;
  })

pub record Uuid : Type 0 where
  pub uuid : Bytes

unfoldable pub uuid : Layout Uuid
uuid = do uuid ← uint8s 16; member (record { uuid = uuid })

pub record Prange : Type 0 where
  pub pr_start_paddr : ℕ
  pub pr_block_count : ℕ

unfoldable pub prange : Layout Prange
prange = do
  pr_start_paddr ← uint 8
  pr_block_count ← uint 8
  member (record { pr_start_paddr = pr_start_paddr; pr_block_count = pr_block_count })

pub record OmapPhys : Type 0 where
  pub om_o : ObjPhys
  pub om_flags : ℕ
  pub om_snap_count : ℕ
  pub om_tree_type : ℕ
  pub om_snapshot_tree_type : ℕ
  pub om_tree_oid : ℕ
  pub om_snapshot_tree_oid : ℕ
  pub om_most_recent_snap : ℕ
  pub om_pending_revert_min : ℕ
  pub om_pending_revert_max : ℕ

unfoldable pub omap_phys : Layout OmapPhys
omap_phys = do
  om_o ← obj_phys
  om_flags ← uint 4
  om_snap_count ← uint 4
  om_tree_type ← uint 4
  om_snapshot_tree_type ← uint 4
  om_tree_oid ← uint 8
  om_snapshot_tree_oid ← uint 8
  om_most_recent_snap ← uint 8
  om_pending_revert_min ← uint 8
  om_pending_revert_max ← uint 8
  member (record {
    om_o = om_o;
    om_flags = om_flags;
    om_snap_count = om_snap_count;
    om_tree_type = om_tree_type;
    om_snapshot_tree_type = om_snapshot_tree_type;
    om_tree_oid = om_tree_oid;
    om_snapshot_tree_oid = om_snapshot_tree_oid;
    om_most_recent_snap = om_most_recent_snap;
    om_pending_revert_min = om_pending_revert_min;
    om_pending_revert_max = om_pending_revert_max;
  })

pub record OmapKey : Type 0 where
  pub ok_oid : ℕ
  pub ok_xid : ℕ

unfoldable pub omap_key : Layout OmapKey
omap_key = do ok_oid ← uint 8; ok_xid ← uint 8; member (record { ok_oid = ok_oid; ok_xid = ok_xid })

pub record OmapVal : Type 0 where
  pub ov_flags : ℕ
  pub ov_size : ℕ
  pub ov_paddr : ℕ

unfoldable pub omap_val : Layout OmapVal
omap_val = do
  ov_flags ← uint 4
  ov_size ← uint 4
  ov_paddr ← uint 8
  member (record { ov_flags = ov_flags; ov_size = ov_size; ov_paddr = ov_paddr })
