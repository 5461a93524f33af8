-- ===== src/Command/Reaching.antt =====
-- The run of src/main.cpp that gets through: from the device and the container, the volume and the driver
-- to the endless loop.
use wamount.Base.{◌∙◌, ap, ℕ, ◌≡◌, refl, arith, true, Option, some, none, List, done, get_or}
use wamount.Bytes.{to_list}
use wamount.Volume.{Volume, get_volume_name, or_untitled}
use wamount.Volume.Starting.{HasVolume, superblock_at, with_tree, named}
use wamount.Disk.{Os, DiskReader, open_disk, closed}
use wamount.Container.{Container, Disk, blocks_of, create}
use wamount.Container
use wamount.Container.Starting.{HasContainer, with_omap, init-HasContainer, get_volume-HasVolume}
use wamount.Container.Superblock.{IsWholeDisk}
use wamount.Container.Started.{init-IsStarted}
use wamount.Container.Volumes.{IsNamed, slot, padded, stored}
use wamount.Winfsp.{Driver, WinFspApfs, mount, mount_named, mount_created}
use wamount.Winfsp
use wamount.Command.Overrun.{disk_of-IsWholeDisk}
use wamount.Command.{Options, Ending, mount_volume, start_container, start, disk_of}

-- The driver creates a file system, places it and runs it.
pub record Accepts (driver : Driver) (prefix mount_point : List ℕ) (t : driver.State) : Type 0 where
  pub system : ℕ
  pub creates : (driver.create prefix t).0 ≡ some system
  pub places : (driver.set_mount_point system mount_point (driver.create prefix t).1).0 ≡ true
  pub runs :
      (driver.start_dispatcher system
        (driver.set_mount_point system mount_point (driver.create prefix t).1).1).0
      ≡ true

module _ (driver : Driver) (prefix mount_point : List ℕ) (t : driver.State)
    (accepts : Accepts driver prefix mount_point t) where
  -- The object and the driver's state afterwards.
  abbrev pub mounted_on : WinFspApfs
  mounted_on = record { file_system = some accepts.system; mount_point = mount_point }

  abbrev pub mounted_state : driver.State
  mounted_state =
      (driver.start_dispatcher accepts.system
        (driver.set_mount_point accepts.system mount_point (driver.create prefix t).1).1).1

  mount-Accepts :
      (prefix_of : List ℕ → Option (List ℕ)) (volume : Volume) (name : List ℕ)
      → get_volume_name volume ≡ done name
      → prefix_of name ≡ some prefix
      → mount driver prefix_of volume Winfsp.create mount_point t
        ≡ done (some (true, mounted_on, mounted_state))
  unfolding mount mount_named mount_created Winfsp.create
  mount-Accepts prefix_of volume name is_name converted =
      ground (arith, is_name, converted, accepts.creates, accepts.places, accepts.runs)

-- The container that is brought up from the disk, and what a volume of it reads.
abbrev pub brought_up : Disk → Container
brought_up disk = with_omap disk

abbrev pub IsVolume : Disk → ℕ → Type 0
IsVolume disk index =
    IsNamed (brought_up disk) index
    × HasVolume (blocks_of disk (padded (brought_up disk) index))
        (get_or (brought_up disk).superblock.nx_fs_oid index 0)

-- The volume that is brought up from the disk, and its name.
abbrev pub volume_on : (disk : Disk) (index : ℕ) → IsVolume disk index → Volume
volume_on disk index (is_named, has) =
    with_tree (blocks_of disk (padded (brought_up disk) index))
      (get_or (brought_up disk).superblock.nx_fs_oid index 0) has

abbrev pub name_on : (disk : Disk) (index : ℕ) → IsVolume disk index → List ℕ
name_on disk index (is_named, has) = or_untitled (
    to_list
      (superblock_at (blocks_of disk (padded (brought_up disk) index))
        (get_or (brought_up disk).superblock.nx_fs_oid index 0)).apfs_volname
      0 has.name_size)

module _ (os : Os) (driver : Driver) (widen prefix_of : List ℕ → Option (List ℕ)) where
  mount_volume-Accepts :
      (o : Options) (d : DiskReader) (c : Container) (volume : Volume) (t : driver.State)
      (name mount_point prefix : List ℕ)
      → get_volume_name volume ≡ done name
      → widen o.mount_point ≡ some mount_point
      → prefix_of name ≡ some prefix
      → (accepts : Accepts driver prefix mount_point t)
      → mount_volume os driver widen prefix_of o d c volume t
        ≡ done (
            Ending.waits d c volume
              (mounted_on driver prefix mount_point t accepts)
              (mounted_state driver prefix mount_point t accepts))
  unfolding mount_volume
  mount_volume-Accepts o d c volume t name mount_point prefix is_name widened converted accepts =
      rw is_name (
        rw widened (
          rw
            (mount-Accepts driver prefix mount_point t accepts prefix_of volume name is_name
              converted)
            refl))

  no_volume : (disk : Disk) (index : ℕ) → slot (brought_up disk) index ≡ none
  unfolding create
  no_volume disk index = refl

  -- The container is brought up, with 2688 bytes written past the end of a buffer.
  started :
      (disk : Disk)
      → HasContainer disk
      → IsWholeDisk disk
      → Container.init disk Container.create
        ≡ done (record { state = brought_up disk; returned = true; overrun = 2688 })
  started disk has whole =
      let up = init-HasContainer disk has in
      up
      ∙ ap (λ (n : ℕ). done (record { state = brought_up disk; returned = true; overrun = n }))
          (init-IsStarted disk Container.create _ whole up refl).1

  start_container-IsVolume :
      (o : Options) (d : DiskReader) (s : os.State) (t : driver.State) (mount_point prefix : List ℕ)
      → let disk = disk_of os driver widen prefix_of d s in
        HasContainer disk
        → (is_volume : IsVolume disk o.volume_index) → widen o.mount_point ≡ some mount_point
        → prefix_of (name_on disk o.volume_index is_volume) ≡ some prefix
        → (accepts : Accepts driver prefix mount_point t)
        → start_container os driver widen prefix_of o d s t
          ≡ done (record {
            ending =
                Ending.waits d
                  (stored
                    (brought_up disk)
                    o.volume_index
                    (volume_on disk o.volume_index is_volume))
                  (volume_on disk o.volume_index is_volume)
                  (mounted_on driver prefix mount_point t accepts)
                  (mounted_state driver prefix mount_point t accepts);
            overrun = 2688;
          })
  unfolding start_container
  start_container-IsVolume o d s t mount_point prefix has is_volume widened converted accepts =
      let disk = disk_of os driver widen prefix_of d s in
      let volume = volume_on disk o.volume_index is_volume in
      let c = stored (brought_up disk) o.volume_index volume in
      let is_name =
        named (blocks_of disk (padded (brought_up disk) o.volume_index))
          (get_or (brought_up disk).superblock.nx_fs_oid o.volume_index 0) is_volume.1 volume
          refl in
      rw (started disk has (disk_of-IsWholeDisk os driver widen prefix_of d s)) (
        rw
          (get_volume-HasVolume disk (brought_up disk) o.volume_index is_volume.0
            (no_volume disk o.volume_index) is_volume.1)
          (rw
            (mount_volume-Accepts o d c volume t (name_on disk o.volume_index is_volume) mount_point
              prefix is_name widened converted accepts)
            refl))

  -- Where the device is opened, the disk has a container, the container's superblock names a volume
  -- at the index that was asked for and the volume is there, both names are converted, and the
  -- driver creates, places and runs a file system, the run writes 2688 bytes past the end of the
  -- superblock's buffer and, as long as nothing that it uses stood where they go, comes to its
  -- endless loop: it holds that volume, in the container's slot at the index, and the object that
  -- knows the file system of the driver. What the bytes overwrite is not modelled.
  pub start-IsVolume :
      (o : Options) (s : os.State) (t : driver.State) (mount_point prefix : List ℕ)
      → let opened = open_disk os closed o.device_path s in
        let disk = disk_of os driver widen prefix_of opened.1 opened.2 in
        opened.0 ≡ true
        → HasContainer disk
        → (is_volume : IsVolume disk o.volume_index) → widen o.mount_point ≡ some mount_point
        → prefix_of (name_on disk o.volume_index is_volume) ≡ some prefix
        → (accepts : Accepts driver prefix mount_point t)
        → start os driver widen prefix_of o s t
          ≡ done (record {
            ending =
                Ending.waits opened.1
                  (stored
                    (brought_up disk)
                    o.volume_index
                    (volume_on disk o.volume_index is_volume))
                  (volume_on disk o.volume_index is_volume)
                  (mounted_on driver prefix mount_point t accepts)
                  (mounted_state driver prefix mount_point t accepts);
            overrun = 2688;
          })
  unfolding start
  start-IsVolume o s t mount_point prefix opened has is_volume widened converted accepts =
      let r = open_disk os closed o.device_path s in
      rw opened (
        start_container-IsVolume o r.1 r.2 t mount_point prefix has is_volume widened converted
          accepts)
