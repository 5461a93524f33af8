-- ===== src/Tests/Containers.antt =====
-- A container of one volume.
use wamount.Base.{◌≡◌, refl, arith, true, false, [], ◌∷◌, Option, some, none, Result, done, fault}
use wamount.Bytes.{fill, word, overrun, c_string, c_string_from}
use wamount.Apfs.Layout.{view, array}
use wamount.Apfs.Objects.{obj_phys, uuid, prange, omap_phys}
use wamount.Apfs.Superblocks.{
  nx_superblock, apfs_superblock, wrapped_meta_crypto_state, apfs_modified_by,
}
use wamount.Btree
use wamount.Volume.{Volume}
use wamount.Volume
use wamount.Container.{
  Container, Disk, Report, read_superblock, read_object_map, read_block, accept, init, create,
  get_volume, load_volume, blocks_of,
}
use wamount.Container.Superblock.{IsWholeDisk}
use wamount.Container.Started.{IsStarted, init-IsStarted}
use wamount.Container.Volumes.{IsLoaded, Settled, Visited, get_volume-IsLoaded, get_volume-again}
use wamount.Tests.Data.{container_byte}

abbrev disk : Disk
disk block size = record {
  succeeded = true;
  delivered = record { size = size; byte = container_byte block };
}

disk-IsWholeDisk : IsWholeDisk disk
disk-IsWholeDisk block size h ok = refl

abbrev or_else {ℓ} : {A : Type ℓ} → Result A → A → A
or_else (done x) d = x
or_else fault d = d

report : Report
report = or_else (init disk create) (record { state = create; returned = false; overrun = 0 })

started : init disk create ≡ done report
unfolding report init read_superblock read_object_map read_block accept fill overrun view
    nx_superblock obj_phys uuid prange array omap_phys word create
started = refl

returned : report.returned ≡ true
unfolding report init read_superblock read_object_map read_block accept fill overrun view
    nx_superblock obj_phys uuid prange array omap_phys word create
returned = refl

init-IsStarted_example : IsStarted disk report.state × (report.overrun ≡ 2688)
init-IsStarted_example = init-IsStarted disk create report disk-IsWholeDisk started returned

volume : Volume
unfolding report blocks_of read_block
volume =
    (or_else (Volume.init (Volume.create 50) (some (blocks_of disk report.state)))
      (Volume.create 50, false)).0

report-IsLoaded : IsLoaded report.state
unfolding report init read_superblock read_object_map read_block accept fill overrun view
    nx_superblock obj_phys uuid prange array omap_phys word create
report-IsLoaded = record { loaded = λ index v e. absurd (ground (arith, e)) }

result : Container × Option Volume
result = or_else (get_volume disk report.state 0) (report.state, none)

loaded : get_volume disk report.state 0 ≡ done result
unfolding result volume report init read_superblock read_object_map read_block accept fill overrun
    view nx_superblock obj_phys uuid prange array omap_phys word create blocks_of apfs_superblock
    wrapped_meta_crypto_state apfs_modified_by c_string c_string_from Volume.init Volume.create
    Volume.read_superblock Volume.read_object_map Volume.init_root_tree Volume.get_volume_name
    Btree.create Btree.init get_volume load_volume
loaded = refl

get_volume-IsLoaded_example : Settled report.state result.0 0 result.1 × IsLoaded result.0
get_volume-IsLoaded_example = get_volume-IsLoaded disk report.state 0 result report-IsLoaded loaded

first : Volume
first = elim result.1 [ none ↦ volume | some v ↦ v ]

first_loaded : get_volume disk report.state 0 ≡ done (result.0, some first)
unfolding first result volume report init read_superblock read_object_map read_block accept fill
    overrun view nx_superblock obj_phys uuid prange array omap_phys word create blocks_of
    apfs_superblock wrapped_meta_crypto_state apfs_modified_by c_string c_string_from Volume.init
    Volume.create Volume.read_superblock Volume.read_object_map Volume.init_root_tree
    Volume.get_volume_name Btree.create Btree.init get_volume load_volume
first_loaded = refl

-- The device is gone by the later calls: no read succeeds.
abbrev gone : Disk
gone block size = record { succeeded = false; delivered = record { size = 0; byte = λ i. 0 } }

-- The superblock names no volume at 1.
second_missing : get_volume gone result.0 1 ≡ done (result.0, none)
unfolding first result volume report init read_superblock read_object_map read_block accept fill
    overrun view nx_superblock obj_phys uuid prange array omap_phys word create blocks_of
    apfs_superblock wrapped_meta_crypto_state apfs_modified_by c_string c_string_from Volume.init
    Volume.create Volume.read_superblock Volume.read_object_map Volume.init_root_tree
    Volume.get_volume_name Btree.create Btree.init get_volume load_volume
second_missing = refl

get_volume-again_example : get_volume gone result.0 0 ≡ done (result.0, some first)
get_volume-again_example =
    get_volume-again disk gone report.state result.0 result.0 0 first (1 ∷ []) report-IsLoaded
      first_loaded (Visited.visit gone [] result.0 1 result.0 none Visited.start second_missing)
