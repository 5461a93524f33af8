-- ===== src/Volume/Inode/Laws.antt =====
-- `getFileInfo` on the record of an inode: no read outside of it, and each member from its place.
use wamount.Base.{
  ℕ, suc, ◌/◌, ◌%◌, ◌^◌, ◌≤◌, ◌<◌, ◌≡◌, ◌↔◌, refl, arith, true, Option, some, none, done, bit_and,
  lt→ltb, le→ltb, le→leb, ==_iff, ◌==◌,
}
use wamount.Base.Bits.{bit_and_mask, bit_and_high}
use wamount.Bytes.{Bytes}
use wamount.Apfs.Layout.{view}
use wamount.Apfs.Types.{s_ifmt, s_ifdir}
use wamount.Apfs.Records.{JInodeVal, j_inode_val}
use wamount.Apfs.Sizes.{sizeof_j_inode_val}
use wamount.Apfs.Types.{apfs_type_inode}
use wamount.Apfs.Keys.{make_key, key_bytes}
use wamount.Blocks.{Blocks}
use wamount.Btree.{Btree, lookup}
use wamount.Volume.{Volume, FileInfo}
use wamount.Volume.Inode.{inode_info, get_file_info}
use wamount.Volume.Inode.Xfields.{Size, dstream_size-Size}

unfoldable pub inode_val : Bytes → JInodeVal
inode_val value = (j_inode_val value 0).0

view_inode :
    (value : Bytes)
    → sizeof_j_inode_val ≤ value.size
    → view j_inode_val value 0 ≡ done (inode_val value)
unfolding view j_inode_val inode_val
view_inode value h = rw (le→leb sizeof_j_inode_val value.size h)

-- The four bits of the mode that name the kind of file are those of a directory.
mode_kind : (mode : ℕ) → ((bit_and mode s_ifmt == s_ifdir) ≡ true) ↔ (mode / 2 ^ 12 % 2 ^ 4 ≡ 4)
mode_kind mode = (
  λ e. omega (arith, (==_iff _ _).0 e, bit_and_high 12 mode 15, bit_and_mask 4 (mode / 2 ^ 12)),
  λ e. (==_iff _ _).1 (omega (arith, bit_and_high 12 mode 15, bit_and_mask 4 (mode / 2 ^ 12))),
)

described : ℕ → JInodeVal → ℕ → FileInfo → FileInfo
described inode val size info = record info {
  inode = inode;
  parent_id = val.parent_id;
  create_time = val.create_time;
  mod_time = val.mod_time;
  mode = val.mode;
  is_directory = bit_and val.mode s_ifmt == s_ifdir;
  size = size;
}

-- What a caller learns of an inode: the number that was asked for, the record's members, the kind of
-- file, and the size by the chain of extended fields.
pub record Describes (inode : ℕ) (value : Bytes) (old new : FileInfo) : Type 0 where
  pub number : new.inode ≡ inode
  pub name : new.name ≡ old.name
  pub parent_id : new.parent_id ≡ (inode_val value).parent_id
  pub create_time : new.create_time ≡ (inode_val value).create_time
  pub mod_time : new.mod_time ≡ (inode_val value).mod_time
  pub mode : new.mode ≡ (inode_val value).mode
  pub directory : (new.is_directory ≡ true) ↔ ((inode_val value).mode / 2 ^ 12 % 2 ^ 4 ≡ 4)
  pub size : Size value sizeof_j_inode_val new.size

-- A record at least as long as the fixed part of an inode always gives a result: the number that
-- was asked for, the parent, the times and the mode of the record, a directory exactly when the
-- four bits of the mode that name the kind of file say so, the size that the chain of extended
-- fields determines, and the name as it was.
pub inode_info-Describes :
    (inode : ℕ) (value : Bytes) (info : FileInfo)
    → sizeof_j_inode_val ≤ value.size
    → (new : FileInfo) × (inode_info inode value info ≡ done (some new))
      × Describes inode value info new
unfolding inode_info described
inode_info-Describes inode value info h =
    let (size, run, found) =
      dstream_size-Size (suc value.size) value sizeof_j_inode_val (omega arith) (omega arith) in
    (
      described inode (inode_val value) size info,
      rw (le→ltb value.size sizeof_j_inode_val h, view_inode value h, run),
      record {
        number = refl;
        name = refl;
        parent_id = refl;
        create_time = refl;
        mod_time = refl;
        mode = refl;
        directory = mode_kind (inode_val value).mode;
        size = found;
      },
    )

-- A record that is too short is refused.
pub inode_info-short :
    (inode : ℕ) (value : Bytes) (info : FileInfo)
    → value.size < sizeof_j_inode_val
    → inode_info inode value info ≡ done none
unfolding inode_info
inode_info-short inode value info h = rw (lt→ltb value.size sizeof_j_inode_val h)

-- On a volume that is brought up, the record is the one that the tree has under the inode's key.
pub get_file_info-found :
    (v : Volume) (t : Btree) (container : Option Blocks) (inode : ℕ) (info : FileInfo)
    (value : Bytes)
    → v.root_tree ≡ some t
    → lookup t (some container) (key_bytes (make_key inode apfs_type_inode)) ≡ done (some value)
    → get_file_info v container inode info ≡ inode_info inode value info
unfolding get_file_info
get_file_info-found v t container inode info value tree found = rw (tree, get_file_info) (rw found)

pub get_file_info-missing :
    (v : Volume) (t : Btree) (container : Option Blocks) (inode : ℕ) (info : FileInfo)
    → v.root_tree ≡ some t
    → lookup t (some container) (key_bytes (make_key inode apfs_type_inode)) ≡ done none
    → get_file_info v container inode info ≡ done none
unfolding get_file_info
get_file_info-missing v t container inode info tree missing = rw (tree, get_file_info) (rw missing)
