-- ===== src/Apfs/Records.antt =====
-- include/apfs_structures.h: the keys and values of the file system tree. The arrays `name` and
-- `xfields` begin where the fixed members end; the union of an inode is one member.
use wamount.Base.{ℕ}
use wamount.Apfs.Layout.{Layout, ◌>>=◌, member, uint}

pub record JKey : Type 0 where
  pub obj_id_and_type : ℕ

unfoldable pub j_key : Layout JKey
j_key = do obj_id_and_type ← uint 8; member (record { obj_id_and_type = obj_id_and_type })

pub record JInodeVal : Type 0 where
  pub parent_id : ℕ
  pub private_id : ℕ
  pub create_time : ℕ
  pub mod_time : ℕ
  pub change_time : ℕ
  pub access_time : ℕ
  pub internal_flags : ℕ
  pub nchildren_or_nlink : ℕ
  pub default_protection_class : ℕ
  pub write_generation_counter : ℕ
  pub bsd_flags : ℕ
  pub owner : ℕ
  pub group : ℕ
  pub mode : ℕ
  pub pad1 : ℕ
  pub uncompressed_size : ℕ

unfoldable pub j_inode_val : Layout JInodeVal
j_inode_val = do
  parent_id ← uint 8
  private_id ← uint 8
  create_time ← uint 8
  mod_time ← uint 8
  change_time ← uint 8
  access_time ← uint 8
  internal_flags ← uint 8
  nchildren_or_nlink ← uint 4
  default_protection_class ← uint 4
  write_generation_counter ← uint 4
  bsd_flags ← uint 4
  owner ← uint 4
  group ← uint 4
  mode ← uint 2
  pad1 ← uint 2
  uncompressed_size ← uint 8
  member (record {
    parent_id = parent_id;
    private_id = private_id;
    create_time = create_time;
    mod_time = mod_time;
    change_time = change_time;
    access_time = access_time;
    internal_flags = internal_flags;
    nchildren_or_nlink = nchildren_or_nlink;
    default_protection_class = default_protection_class;
    write_generation_counter = write_generation_counter;
    bsd_flags = bsd_flags;
    owner = owner;
    group = group;
    mode = mode;
    pad1 = pad1;
    uncompressed_size = uncompressed_size;
  })

pub record JDrecKey : Type 0 where
  pub hdr : JKey
  pub name_len : ℕ

unfoldable pub j_drec_key : Layout JDrecKey
j_drec_key = do hdr ← j_key; name_len ← uint 2; member (record { hdr = hdr; name_len = name_len })

pub record JDrecVal : Type 0 where
  pub file_id : ℕ
  pub date_added : ℕ
  pub flags : ℕ

unfoldable pub j_drec_val : Layout JDrecVal
j_drec_val = do
  file_id ← uint 8
  date_added ← uint 8
  flags ← uint 2
  member (record { file_id = file_id; date_added = date_added; flags = flags })

pub record JFileExtentKey : Type 0 where
  pub hdr : JKey
  pub logical_addr : ℕ

unfoldable pub j_file_extent_key : Layout JFileExtentKey
j_file_extent_key = do
  hdr ← j_key
  logical_addr ← uint 8
  member (record { hdr = hdr; logical_addr = logical_addr })

pub record JFileExtentVal : Type 0 where
  pub len_and_flags : ℕ
  pub phys_block_num : ℕ
  pub crypto_id : ℕ

unfoldable pub j_file_extent_val : Layout JFileExtentVal
j_file_extent_val = do
  len_and_flags ← uint 8
  phys_block_num ← uint 8
  crypto_id ← uint 8
  member (record {
    len_and_flags = len_and_flags;
    phys_block_num = phys_block_num;
    crypto_id = crypto_id;
  })

pub record XField : Type 0 where
  pub x_type : ℕ
  pub x_flags : ℕ
  pub x_size : ℕ

unfoldable pub x_field : Layout XField
x_field = do
  x_type ← uint 1
  x_flags ← uint 1
  x_size ← uint 2
  member (record { x_type = x_type; x_flags = x_flags; x_size = x_size })

pub record JDstream : Type 0 where
  pub size : ℕ
  pub alloced_size : ℕ
  pub default_crypto_id : ℕ
  pub total_bytes_written : ℕ
  pub total_bytes_read : ℕ

unfoldable pub j_dstream : Layout JDstream
j_dstream = do
  size ← uint 8
  alloced_size ← uint 8
  default_crypto_id ← uint 8
  total_bytes_written ← uint 8
  total_bytes_read ← uint 8
  member (record {
    size = size;
    alloced_size = alloced_size;
    default_crypto_id = default_crypto_id;
    total_bytes_written = total_bytes_written;
    total_bytes_read = total_bytes_read;
  })
