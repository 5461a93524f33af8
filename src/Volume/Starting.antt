-- ===== src/Volume/Starting.antt =====
-- `APFSVolume::init` on a disk that has a volume at the address: it ends, and with success.
use wamount.Base.{
  ℕ, ◌≤◌, ◌<◌, ◌≡◌, ◌≢◌, refl, ap, ◌∙◌, arith, true, some, List, Result, done, le→leb, ◌>>=◌,
}
use wamount.Bytes.{Bytes, fill, c_string, to_list}
use wamount.Bytes.Strings.{EndsAt, c_string-EndsAt}
use wamount.Blocks.{Blocks}
use wamount.Btree.{Btree}
use wamount.Btree
use wamount.Apfs.Types.{apfs_magic}
use wamount.Apfs.Layout.{view, array}
use wamount.Apfs.Objects.{omap_phys, obj_phys, uuid}
use wamount.Apfs.Superblocks.{
  ApfsSuperblock, apfs_superblock, wrapped_meta_crypto_state, apfs_modified_by,
}
use wamount.Apfs.Sizes.{sizeof_apfs_superblock, sizeof_omap_phys}
use wamount.Volume.{
  Volume, create, block_buffer, is_read, get_volume_name, or_untitled, read_superblock,
  read_object_map, load_object_map, init_root_tree, init,
}

-- The superblock that a block holds.
unfoldable pub superblock_at : Blocks → ℕ → ApfsSuperblock
superblock_at blocks oid = (apfs_superblock (block_buffer blocks oid) 0).0

-- The container has a volume at the address: all that `init` asks for.
pub record HasVolume (blocks : Blocks) (oid : ℕ) : Type 0 where
  pub is_superblock_read : is_read blocks oid ≡ true
  pub room : sizeof_apfs_superblock ≤ blocks.block_size
  pub magic : (superblock_at blocks oid).apfs_magic ≡ apfs_magic
  pub name_size : ℕ
  pub name_short : name_size < (superblock_at blocks oid).apfs_volname.size
  pub name_ends : EndsAt (superblock_at blocks oid).apfs_volname 0 name_size
  pub omap : (superblock_at blocks oid).apfs_omap_oid ≢ 0
  pub is_omap_read : is_read blocks (superblock_at blocks oid).apfs_omap_oid ≡ true
  pub root : (superblock_at blocks oid).apfs_root_tree_oid ≢ 0

superblock_inside :
    (b : Bytes)
    → sizeof_apfs_superblock ≤ b.size
    → view apfs_superblock b 0 ≡ done (apfs_superblock b 0).0
unfolding view apfs_superblock obj_phys uuid array wrapped_meta_crypto_state apfs_modified_by
superblock_inside b h = rw (le→leb sizeof_apfs_superblock b.size h)

omap_inside : (b : Bytes) → sizeof_omap_phys ≤ b.size → view omap_phys b 0 ≡ done (omap_phys b 0).0
unfolding view omap_phys obj_phys
omap_inside b h = rw (le→leb sizeof_omap_phys b.size h)

buffer_size : (blocks : Blocks) (oid : ℕ) → (block_buffer blocks oid).size ≡ blocks.block_size
unfolding fill
buffer_size blocks oid = refl

module _ (blocks : Blocks) (oid : ℕ) (has : HasVolume blocks oid) where
  abbrev found : ApfsSuperblock
  found = superblock_at blocks oid

  -- The volume after each of the three steps.
  abbrev with_superblock : Volume
  with_superblock = record (create oid) { superblock = found }

  abbrev with_omap : Volume
  with_omap = record with_superblock {
    volume_omap = (omap_phys (block_buffer blocks found.apfs_omap_oid) 0).0;
  }

  abbrev pub with_tree : Volume
  with_tree = record with_omap { root_tree = some (Btree.create found.apfs_root_tree_oid) }

  pub named :
      (v : Volume)
      → v.superblock ≡ found
      → get_volume_name v ≡ done (or_untitled (to_list found.apfs_volname 0 has.name_size))
  unfolding get_volume_name
  named v same =
      ap (λ (x : ApfsSuperblock). c_string x.apfs_volname >>= λ name. done (or_untitled name)) same
      ∙ ap (λ (r : Result (List ℕ)). r >>= λ name. done (or_untitled name))
          (c_string-EndsAt found.apfs_volname has.name_size has.name_short has.name_ends)

  room_in :
      (o : ℕ)
      → sizeof_apfs_superblock ≤ blocks.block_size
      → sizeof_apfs_superblock ≤ (block_buffer blocks o).size
  room_in o h = omega (arith, h, buffer_size blocks o)

  room_in' :
      (o : ℕ)
      → sizeof_apfs_superblock ≤ blocks.block_size
      → sizeof_omap_phys ≤ (block_buffer blocks o).size
  room_in' o h = omega (arith, h, buffer_size blocks o)

  first_step : read_superblock (create oid) (some blocks) ≡ done (with_superblock, true)
  unfolding read_superblock create superblock_at
  first_step = ground (
    arith,
    has.is_superblock_read,
    superblock_inside (block_buffer blocks oid) (room_in oid has.room),
    has.magic,
    named with_superblock refl,
  )

  second_step : read_object_map with_superblock (some blocks) ≡ done (with_omap, true)
  unfolding read_object_map load_object_map
  second_step = ground (
    arith,
    has.omap,
    has.is_omap_read,
    omap_inside (block_buffer blocks found.apfs_omap_oid) (room_in' found.apfs_omap_oid has.room),
  )

  third_step : init_root_tree with_omap ≡ (with_tree, true)
  unfolding init_root_tree Btree.init Btree.create
  third_step = ground (arith, has.root)

  pub init-HasVolume : init (create oid) (some blocks) ≡ done (with_tree, true)
  unfolding init
  init-HasVolume = ground (arith, first_step, second_step, third_step, named with_tree refl)
