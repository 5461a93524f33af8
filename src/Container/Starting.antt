-- ===== src/Container/Starting.antt =====
-- `APFSContainer::init` and `getVolume` on a disk that has a container and a volume: they end, and with
-- success.
use wamount.Base.{ℕ, ◌≤◌, ◌≡◌, ◌≢◌, refl, ap, ◌∙◌, true, none, some, done, ==_ne, get_or}
use wamount.Bytes.{fill, zeros, overrun}
use wamount.Apfs.Types.{nx_magic, apfs_block_size}
use wamount.Apfs.Objects.{omap_phys}
use wamount.Apfs.Sizes.{sizeof_omap_phys, sizeof_nx_superblock}
use wamount.Volume.Starting.{HasVolume, with_tree, init-HasVolume}
use wamount.Container.{
  Container, Disk, create, blocks_of, accept, read_superblock, read_object_map, init, get_volume,
}
use wamount.Container.Superblock.{on_disk, read_superblock-read}
use wamount.Container.Started.{read_object_map-read}
use wamount.Container.Volumes.{IsNamed, slot, padded, stored, get_volume-loads, load_volume-answer}

-- The disk has a container: all that `init` asks for.
pub record HasContainer (disk : Disk) : Type 0 where
  pub is_superblock_read : (disk 0 apfs_block_size).succeeded ≡ true
  pub magic : (on_disk disk).nx_magic ≡ nx_magic
  pub omap : (on_disk disk).nx_omap_oid ≢ 0
  pub is_omap_read : (disk (on_disk disk).nx_omap_oid (on_disk disk).nx_block_size).succeeded ≡ true
  pub room : sizeof_omap_phys ≤ (on_disk disk).nx_block_size

module _ (disk : Disk) where
  -- The container after the superblock is read, and after the object map is.
  abbrev with_superblock : Container
  with_superblock = record create {
    superblock = on_disk disk;
    block_size = (on_disk disk).nx_block_size;
    block_count = (on_disk disk).nx_block_count;
  }

  abbrev pub with_omap : Container
  with_omap = record with_superblock {
    container_omap =
        (omap_phys
          (fill (zeros (on_disk disk).nx_block_size)
            (disk (on_disk disk).nx_omap_oid (on_disk disk).nx_block_size).delivered)
          0).0;
  }

  abbrev lost : ℕ
  lost = overrun (zeros sizeof_nx_superblock) (disk 0 apfs_block_size).delivered

  accepted :
      HasContainer disk
      → accept create (on_disk disk) lost
        ≡ record { state = with_superblock; returned = true; overrun = lost }
  unfolding accept
  accepted has = rw has.magic refl

  pub init-HasContainer :
      HasContainer disk
      → init disk create ≡ done (record { state = with_omap; returned = true; overrun = lost })
  unfolding init
  init-HasContainer has =
      let first : read_superblock disk create
          ≡ done (record { state = with_superblock; returned = true; overrun = lost }) =
        read_superblock-read disk create has.is_superblock_read ∙ ap done (accepted has) in
      let second : read_object_map disk with_superblock ≡ done (with_omap, true) =
        read_object_map-read disk with_superblock (==_ne _ 0 has.omap) has.is_omap_read has.room in
      rw first (rw second refl)

  pub get_volume-HasVolume :
      (c : Container) (index : ℕ)
      → IsNamed c index
      → slot c index ≡ none
      → (has : HasVolume (blocks_of disk (padded c index)) (get_or c.superblock.nx_fs_oid index 0))
      → let volume =
          with_tree (blocks_of disk (padded c index)) (get_or c.superblock.nx_fs_oid index 0) has in
        get_volume disk c index ≡ done (stored c index volume, some volume)
  get_volume-HasVolume c index named empty has =
      let blocks = blocks_of disk (padded c index) in
      let oid : ℕ = get_or c.superblock.nx_fs_oid index 0 in
      get_volume-loads disk c index named empty
      ∙ load_volume-answer disk c index (with_tree blocks oid has, true)
          (init-HasVolume blocks oid has)
