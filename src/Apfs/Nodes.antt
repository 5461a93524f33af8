-- ===== src/Apfs/Nodes.antt =====
-- include/apfs_structures.h: the head of a B-tree node. The array `btn_data` begins where the head
-- ends.
use wamount.Base.{ℕ}
use wamount.Apfs.Layout.{Layout, ◌>>=◌, member, uint}
use wamount.Apfs.Objects.{ObjPhys, obj_phys}

pub record Nloc : Type 0 where
  pub off : ℕ
  pub len : ℕ

unfoldable pub nloc : Layout Nloc
nloc = do off ← uint 2; len ← uint 2; member (record { off = off; len = len })

pub record BtreeNodePhys : Type 0 where
  pub btn_o : ObjPhys
  pub btn_flags : ℕ
  pub btn_level : ℕ
  pub btn_nkeys : ℕ
  pub btn_table_space : Nloc
  pub btn_free_space : Nloc
  pub btn_key_free_list : Nloc
  pub btn_val_free_list : Nloc

unfoldable pub btree_node_phys : Layout BtreeNodePhys
btree_node_phys = do
  btn_o ← obj_phys
  btn_flags ← uint 2
  btn_level ← uint 2
  btn_nkeys ← uint 4
  btn_table_space ← nloc
  btn_free_space ← nloc
  btn_key_free_list ← nloc
  btn_val_free_list ← nloc
  member (record {
    btn_o = btn_o;
    btn_flags = btn_flags;
    btn_level = btn_level;
    btn_nkeys = btn_nkeys;
    btn_table_space = btn_table_space;
    btn_free_space = btn_free_space;
    btn_key_free_list = btn_key_free_list;
    btn_val_free_list = btn_val_free_list;
  })

pub record BtreeInfo : Type 0 where
  pub bt_flags : ℕ
  pub bt_node_size : ℕ
  pub bt_key_size : ℕ
  pub bt_val_size : ℕ

unfoldable pub btree_info : Layout BtreeInfo
btree_info = do
  bt_flags ← uint 4
  bt_node_size ← uint 4
  bt_key_size ← uint 4
  bt_val_size ← uint 4
  member (record {
    bt_flags = bt_flags;
    bt_node_size = bt_node_size;
    bt_key_size = bt_key_size;
    bt_val_size = bt_val_size;
  })
