-- ===== src/Apfs/Sizes.antt =====
-- `sizeof` of the structs, and the offsets of the arrays at their ends, as the layouts give them.
use wamount.Base.{ℕ, ◌≡◌, refl}
use wamount.Apfs.Layout.{sizeof, array}
use wamount.Apfs.Objects.{obj_phys, uuid, prange, omap_phys}
use wamount.Apfs.Nodes.{btree_node_phys, nloc}
use wamount.Apfs.Superblocks.{
  nx_superblock, apfs_superblock, wrapped_meta_crypto_state, apfs_modified_by,
}
use wamount.Apfs.Records.{
  j_key, j_inode_val, j_drec_key, j_drec_val, j_file_extent_key, j_file_extent_val, x_field,
  j_dstream,
}

abbrev pub sizeof_nx_superblock : ℕ
sizeof_nx_superblock = 1408

abbrev pub sizeof_omap_phys : ℕ
sizeof_omap_phys = 88

abbrev pub sizeof_apfs_superblock : ℕ
sizeof_apfs_superblock = 1056

abbrev pub sizeof_j_inode_val : ℕ
sizeof_j_inode_val = 92

abbrev pub sizeof_j_drec_key : ℕ
sizeof_j_drec_key = 10

abbrev pub sizeof_j_drec_val : ℕ
sizeof_j_drec_val = 18

abbrev pub sizeof_j_file_extent_val : ℕ
sizeof_j_file_extent_val = 24

abbrev pub sizeof_x_field : ℕ
sizeof_x_field = 4

abbrev pub sizeof_j_dstream : ℕ
sizeof_j_dstream = 40

nx_superblock_size : sizeof nx_superblock ≡ sizeof_nx_superblock
unfolding nx_superblock obj_phys uuid prange array
nx_superblock_size = refl

omap_phys_size : sizeof omap_phys ≡ sizeof_omap_phys
unfolding omap_phys obj_phys
omap_phys_size = refl

apfs_superblock_size : sizeof apfs_superblock ≡ sizeof_apfs_superblock
unfolding apfs_superblock obj_phys uuid array wrapped_meta_crypto_state apfs_modified_by
apfs_superblock_size = refl

btree_node_phys_size : sizeof btree_node_phys ≡ 56
unfolding btree_node_phys obj_phys nloc
btree_node_phys_size = refl

j_inode_val_size : sizeof j_inode_val ≡ sizeof_j_inode_val
unfolding j_inode_val
j_inode_val_size = refl

j_drec_key_size : sizeof j_drec_key ≡ sizeof_j_drec_key
unfolding j_drec_key j_key
j_drec_key_size = refl

j_drec_val_size : sizeof j_drec_val ≡ sizeof_j_drec_val
unfolding j_drec_val
j_drec_val_size = refl

j_file_extent_key_size : sizeof j_file_extent_key ≡ 16
unfolding j_file_extent_key j_key
j_file_extent_key_size = refl

j_file_extent_val_size : sizeof j_file_extent_val ≡ sizeof_j_file_extent_val
unfolding j_file_extent_val
j_file_extent_val_size = refl

x_field_size : sizeof x_field ≡ sizeof_x_field
unfolding x_field
x_field_size = refl

j_dstream_size : sizeof j_dstream ≡ sizeof_j_dstream
unfolding j_dstream
j_dstream_size = refl
