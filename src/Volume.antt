-- ===== src/Volume.antt =====
-- src/apfs/volume.h and volume.cpp: the state of a volume and how it is brought up. The container is
-- held by a weak pointer: `container` is what `container_.lock()` gives, `none` once it is gone.
pub mod Inode
pub mod Directory
pub mod Path
pub mod Read
pub mod Ready
pub mod Starting
pub mod Records
use wamount.Base.{
  ℕ, zero, suc, ◌*◌, ◌%◌, ◌^◌, Bool, true, false, not, Option, none, some, List, [], ◌∷◌, Result,
  done, fault, ◌>>=◌, ◌==◌, if◌then◌else◌,
}
use wamount.Bytes.{Bytes, zeros, fill, c_string}
use wamount.Blocks.{Blocks}
use wamount.Btree.{Btree}
use wamount.Btree
use wamount.Apfs.Types.{apfs_magic}
use wamount.Apfs.Layout.{view}
use wamount.Apfs.Objects.{OmapPhys, omap_phys}
use wamount.Apfs.Superblocks.{ApfsSuperblock, apfs_superblock}
use wamount.Apfs.Sizes.{sizeof_apfs_superblock, sizeof_omap_phys}

-- A file name is the list of its bytes.
pub record FileInfo : Type 0 where
  pub inode : ℕ
  pub name : List ℕ
  pub size : ℕ
  pub create_time : ℕ
  pub mod_time : ℕ
  pub mode : ℕ
  pub is_directory : Bool
  pub parent_id : ℕ

pub record Volume : Type 0 where
  pub volume_oid : ℕ
  pub superblock : ApfsSuperblock
  pub volume_omap : OmapPhys
  pub root_tree : Option Btree

unfoldable pub create : ℕ → Volume
create volume_oid = record {
  volume_oid = volume_oid;
  superblock = (apfs_superblock (zeros sizeof_apfs_superblock) 0).0;
  volume_omap = (omap_phys (zeros sizeof_omap_phys) 0).0;
  root_tree = none;
}

-- "Untitled"
abbrev pub untitled : List ℕ
untitled = b'U' ∷ b'n' ∷ b't' ∷ b'i' ∷ b't' ∷ b'l' ∷ b'e' ∷ b'd' ∷ []

pub or_untitled : List ℕ → List ℕ
or_untitled [] = untitled
or_untitled (c ∷ cs) = c ∷ cs

-- The name ends at the first zero. A name that fills its 256 bytes has none.
unfoldable pub get_volume_name : Volume → Result (List ℕ)
unfolding or_untitled
get_volume_name v = c_string v.superblock.apfs_volname >>= λ name. done (or_untitled name)

-- The product of two `uint64_t`; the pointer that `lock()` gives is not tested.
unfoldable pub get_volume_size : Volume → Option Blocks → Result ℕ
get_volume_size v none = fault
get_volume_size v (some container) =
    done (v.superblock.apfs_total_blocks_alloced * container.block_size % 2 ^ 64)

-- A block of the container, as it stands in a buffer of one block after the read.
abbrev pub block_buffer : Blocks → ℕ → Bytes
block_buffer container oid =
    fill (zeros container.block_size) (container.read_block oid container.block_size).delivered

abbrev pub is_read : Blocks → ℕ → Bool
is_read container oid = (container.read_block oid container.block_size).succeeded

-- The result is the volume after the call, and what the call returns. The log asks for the name.
unfoldable pub read_superblock : Volume → Option Blocks → Result (Volume × Bool)
unfolding get_volume_name
read_superblock v none = done (v, false)
read_superblock v (some container) =
    if not (is_read container v.volume_oid) then done (v, false) else do
      superblock ← view apfs_superblock (block_buffer container v.volume_oid) 0
      let v' = record v { superblock = superblock }
      if not (superblock.apfs_magic == apfs_magic)
          then done (v', false)
          else (get_volume_name v' >>= λ name. done (v', true))

-- The part of `readObjectMap` after the test of the identifier.
load_object_map : Volume → Option Blocks → Result (Volume × Bool)
load_object_map v none = done (v, false)
load_object_map v (some container) =
    if not (is_read container v.superblock.apfs_omap_oid) then done (v, false) else do
      omap ← view omap_phys (block_buffer container v.superblock.apfs_omap_oid) 0
      done (record v { volume_omap = omap }, true)

unfoldable pub read_object_map : Volume → Option Blocks → Result (Volume × Bool)
unfolding load_object_map
read_object_map v container =
    if v.superblock.apfs_omap_oid == 0 then done (v, false) else load_object_map v container

unfoldable pub init_root_tree : Volume → Volume × Bool
init_root_tree v =
    let tree = Btree.create v.superblock.apfs_root_tree_oid in
    if v.superblock.apfs_root_tree_oid == 0
    then (v, false)
    else (record v { root_tree = some tree }, Btree.init tree)

unfoldable pub init : Volume → Option Blocks → Result (Volume × Bool)
init v container = do
  (v1, superblock) ← read_superblock v container
  if not superblock then done (v1, false) else do
    (v2, omap) ← read_object_map v1 container
    if not omap then done (v2, false) else do
      let (v3, tree) = init_root_tree v2
      if not tree then done (v3, false) else (get_volume_name v3 >>= λ name. done (v3, true))

abbrev pub root_inode : ℕ
root_inode = 2

-- It writes the number and always returns true.
unfoldable pub get_root_inode : ℕ
get_root_inode = root_inode
