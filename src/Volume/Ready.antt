-- ===== src/Volume/Ready.antt =====
-- `APFSVolume::init`: what holds of a volume that it has brought up.
use wamount.Base.{
  ℕ, ◌<◌, ◌≡◌, ◌≢◌, arith, Bool, true, false, Option, none, some, Result, done, fault, lt→leb,
  Result-cases, inl, inr, Bool-cases, not, if◌then◌else◌, ◌>>=◌,
}
use wamount.Bytes.{Bytes, fill}
use wamount.Blocks.{Blocks}
use wamount.Btree.{Btree}
use wamount.Btree
use wamount.Apfs.Types.{apfs_magic}
use wamount.Apfs.Layout.{view, array}
use wamount.Apfs.Objects.{obj_phys, uuid}
use wamount.Apfs.Superblocks.{apfs_superblock, wrapped_meta_crypto_state, apfs_modified_by}
use wamount.Apfs.Sizes.{sizeof_apfs_superblock}
use wamount.Volume.{
  Volume, block_buffer, is_read, get_volume_name, read_superblock, read_object_map, init_root_tree,
  init,
}

-- The superblock is one of a volume, it names an object map and a tree, and the tree is set up at the
-- address that it names.
pub record IsReady (v : Volume) : Type 0 where
  pub magic : v.superblock.apfs_magic ≡ apfs_magic
  pub omap : v.superblock.apfs_omap_oid ≢ 0
  pub root : v.superblock.apfs_root_tree_oid ≢ 0
  pub tree : v.root_tree ≡ some (Btree.create v.superblock.apfs_root_tree_oid)

-- A read that has succeeded has put a volume's superblock in place, and changed nothing else.
read_superblock-true :
    (v v' : Volume) (container : Option Blocks)
    → read_superblock v container ≡ done (v', true)
    → (v'.superblock.apfs_magic ≡ apfs_magic) × (v'.volume_oid ≡ v.volume_oid)
unfolding read_superblock
read_superblock-true v v' none e = cc
read_superblock-true v v' (some container) e = ground arith

read_object_map-true :
    (v v' : Volume) (container : Option Blocks)
    → read_object_map v container ≡ done (v', true)
    → (v'.superblock ≡ v.superblock) × (v.superblock.apfs_omap_oid ≢ 0)
unfolding read_object_map
read_object_map-true v v' none e = ground arith
read_object_map-true v v' (some container) e = ground arith

init_root_tree-true :
    (v v' : Volume)
    → init_root_tree v ≡ (v', true)
    → (v'.superblock ≡ v.superblock)
      × (v.superblock.apfs_root_tree_oid ≢ 0)
      × (v'.root_tree ≡ some (Btree.create v.superblock.apfs_root_tree_oid))
unfolding init_root_tree
init_root_tree-true v v' e = ground arith

-- The end of `init`, after the object map.
finish_init : Volume → Result (Volume × Bool)
finish_init v =
    let (v3, tree) = init_root_tree v in
    if not tree then done (v3, false) else (get_volume_name v3 >>= λ name. done (v3, true))

finish : (v v' : Volume) → finish_init v ≡ done (v', true) → init_root_tree v ≡ (v', true)
unfolding finish_init
finish v v' e = elim (Bool-cases (init_root_tree v).1) [
  | inl p ↦ elim (Result-cases (get_volume_name (init_root_tree v).0)) [
    | inl q ↦ absurd (ground (arith, p, q))
    | inr (name, q) ↦ ground (arith, p, q)
  ]
  | inr p ↦ absurd (ground (arith, p))
]

ready :
    (v1 v2 v' : Volume)
    → v1.superblock.apfs_magic ≡ apfs_magic
    → (v2.superblock ≡ v1.superblock) × (v1.superblock.apfs_omap_oid ≢ 0)
    → init_root_tree v2 ≡ (v', true)
    → IsReady v'
ready v1 v2 v' magic (same, omap) e =
    let (same', root, tree) = init_root_tree-true v2 v' e in
    record {
      magic = rw (same', same) magic;
      omap = rw (same', same) omap;
      root = rw same' root;
      tree = rw same' tree;
    }

superblock_past : (b : Bytes) → b.size < sizeof_apfs_superblock → view apfs_superblock b 0 ≡ fault
unfolding view apfs_superblock obj_phys uuid array wrapped_meta_crypto_state apfs_modified_by
superblock_past b h = rw (lt→leb sizeof_apfs_superblock b.size h)

small_buffer :
    (container : Blocks) (oid : ℕ)
    → container.block_size < sizeof_apfs_superblock
    → (block_buffer container oid).size < sizeof_apfs_superblock
unfolding fill
small_buffer container oid h = h

-- A volume that is reported as brought up has the magic number of a volume, names an object map and
-- a tree, and its tree is set up at the address that the superblock names.
pub init-IsReady :
    (v v' : Volume) (container : Option Blocks) → init v container ≡ done (v', true) → IsReady v'
unfolding init finish_init
init-IsReady v v' container e = elim (Result-cases (read_superblock v container)) [
  | inl p ↦ absurd (ground (arith, p))
  | inr ((v1, false), p) ↦ absurd (ground (arith, p))
  | inr ((v1, true), p) ↦ elim (Result-cases (read_object_map v1 container)) [
    | inl q ↦ absurd (ground (arith, p, q))
    | inr ((v2, false), q) ↦ absurd (ground (arith, p, q))
    | inr ((v2, true), q) ↦
        ready v1 v2 v' (read_superblock-true v v1 container p).0
          (read_object_map-true v1 v2 container q) (finish v2 v' (ground (arith, p, q)))
  ]
]

-- Where the block of a volume's superblock is read and a block is shorter than the superblock,
-- bringing the volume up copies the superblock out from beyond the end of the buffer.
init-fault :
    (v : Volume) (container : Blocks)
    → is_read container v.volume_oid ≡ true
    → container.block_size < sizeof_apfs_superblock
    → init v (some container) ≡ fault
unfolding init read_superblock
init-fault v container read small = rw (
  read,
  superblock_past (block_buffer container v.volume_oid) (small_buffer container v.volume_oid small),
)
