-- ===== src/Volume/Inode.antt =====
-- `APFSVolume::getFileInfo`.
pub mod Xfields
pub mod Laws
pub mod Ranges
use wamount.Base.{
  ℕ, zero, suc, ◌+◌, bit_and, not, Option, none, some, Result, done, fault, ◌>>=◌, ltb, leb, ◌==◌,
  if◌then◌else◌,
}
use wamount.Bytes.{Bytes}
use wamount.Blocks.{Blocks}
use wamount.Btree.{lookup}
use wamount.Apfs.Types.{apfs_type_inode, s_ifmt, s_ifdir}
use wamount.Apfs.Layout.{view}
use wamount.Apfs.Records.{j_inode_val, x_field, j_dstream}
use wamount.Apfs.Keys.{make_key, key_bytes}
use wamount.Apfs.Sizes.{sizeof_j_inode_val, sizeof_x_field, sizeof_j_dstream}
use wamount.Volume.{Volume, FileInfo}

-- INO_EXT_TYPE_DSTREAM
abbrev pub ino_ext_type_dstream : ℕ
ino_ext_type_dstream = 8

-- The data stream after the field's head at `start`, if it fits into the value.
dstream_at_end : Bytes → ℕ → Result ℕ
dstream_at_end value start =
    if leb (start + sizeof_x_field + sizeof_j_dstream) value.size
    then (view j_dstream value (start + sizeof_x_field) >>= λ dstream. done dstream.size)
    else done 0

-- The loop over the extended fields from `start` on, up to the end of the value: the size that the data
-- stream states, or 0. A round goes on by 4 bytes at least, so as many rounds as the value has bytes
-- are enough (`Xfields`); `fault` at the end of the rounds is never met.
unfoldable pub dstream_size : ℕ → Bytes → ℕ → Result ℕ
unfolding dstream_at_end
dstream_size zero value start = fault
dstream_size (suc rounds) value start =
    if not (leb (start + sizeof_x_field) value.size) then done 0 else do
      xfield ← view x_field value start
      let next = dstream_size rounds value (start + (sizeof_x_field + xfield.x_size))
      if xfield.x_type == ino_ext_type_dstream then dstream_at_end value start else next

-- What is made of the inode's record. `info` is the caller's struct, of which the name is left alone;
-- `none` is the result false, with `info` unchanged.
unfoldable pub inode_info : ℕ → Bytes → FileInfo → Result (Option FileInfo)
inode_info inode value info = if ltb value.size sizeof_j_inode_val then done none else do
  inode_val ← view j_inode_val value 0
  size ← dstream_size (suc value.size) value sizeof_j_inode_val
  done (
      some (record info {
        inode = inode;
        parent_id = inode_val.parent_id;
        create_time = inode_val.create_time;
        mod_time = inode_val.mod_time;
        mode = inode_val.mode;
        is_directory = bit_and inode_val.mode s_ifmt == s_ifdir;
        size = size;
      }))

-- `root_tree_` is not tested: before `init` has set it, the call goes through a null pointer.
unfoldable pub get_file_info : Volume → Option Blocks → ℕ → FileInfo → Result (Option FileInfo)
get_file_info v container inode info = elim v.root_tree [
  | none ↦ fault
  | some tree ↦ do
    found ← lookup tree (some container) (key_bytes (make_key inode apfs_type_inode))
    elim found [ none ↦ done none | some value ↦ inode_info inode value info ]
]
