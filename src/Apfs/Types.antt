-- ===== src/Apfs/Types.antt =====
-- include/apfs_types.h: the constants that the program tests.
use wamount.Base.{ℕ}

abbrev pub object_type_btree : ℕ
object_type_btree = 0x00000002

abbrev pub object_type_btree_node : ℕ
object_type_btree_node = 0x00000003

abbrev pub object_type_omap : ℕ
object_type_omap = 0x0000000b

abbrev pub apfs_block_size : ℕ
apfs_block_size = 4096

abbrev pub nx_magic : ℕ
nx_magic = 0x4253584e

abbrev pub apfs_magic : ℕ
apfs_magic = 0x42535041

abbrev pub nx_max_file_systems : ℕ
nx_max_file_systems = 100

abbrev pub apfs_type_inode : ℕ
apfs_type_inode = 3

abbrev pub apfs_type_file_extent : ℕ
apfs_type_file_extent = 8

abbrev pub apfs_type_dir_rec : ℕ
apfs_type_dir_rec = 9

abbrev pub s_ifmt : ℕ
s_ifmt = 0o170000

abbrev pub s_ifdir : ℕ
s_ifdir = 0o040000
