-- ===== src/Winfsp.antt =====
-- src/winfsp/winfsp_ops.h and winfsp_ops.cpp. The driver is a parameter: the functions of WinFsp that
-- are called, over a state that they change. So is the conversion between wide and narrow strings,
-- which throws on a string that is not well-formed.
pub mod Callbacks
pub mod Mounting
pub mod Points
pub mod Info
pub mod Transfers
pub mod Contexts
pub mod Names
pub mod Reading
pub mod Told
pub mod Ending
use wamount.Base.{
  ℕ, ◌+◌, ◌-◌, ◌*◌, ◌/◌, ◌%◌, ◌^◌, bit_and, Bool, true, false, not, Option, none, some, List,
  Result, done, ◌>>=◌, if◌then◌else◌,
}
use wamount.Volume.{Volume, FileInfo, get_volume_name}

-- `false` and `none` stand for a status that is not a success. A file system is known by a number; the
-- two arguments of `create` are the volume's prefix and the state.
pub record Driver : Type 1 where
  pub State : Type 0
  pub create : List ℕ → State → Option ℕ × State
  pub set_mount_point : ℕ → List ℕ → State → Bool × State
  pub start_dispatcher : ℕ → State → Bool × State
  pub stop_dispatcher : ℕ → State → State
  pub delete : ℕ → State → State

-- The volume is held by the caller.
pub record WinFspApfs : Type 0 where
  pub file_system : Option ℕ
  pub mount_point : List ℕ

pub record FileContext : Type 0 where
  pub inode : ℕ
  pub is_directory : Bool
  pub size : ℕ

-- The flags that are set in `FileAttributes`.
pub record Attributes : Type 0 where
  pub readonly : Bool
  pub directory : Bool

-- The members of FSP_FSCTL_FILE_INFO that are set to anything but 0.
pub record FspFileInfo : Type 0 where
  pub file_attributes : Attributes
  pub file_size : ℕ
  pub allocation_size : ℕ
  pub creation_time : ℕ
  pub last_access_time : ℕ
  pub last_write_time : ℕ
  pub change_time : ℕ
  pub index_number : ℕ

unfoldable pub create : WinFspApfs
create = record { file_system = none; mount_point = List.[] }

-- The conversion of a time, in 64 bits.
unfoldable pub file_time : ℕ → ℕ
file_time time = (time / 1000000000 * 10000000 + 11644473600 * 10000000) % 2 ^ 64

-- `~4095ULL`
abbrev pub not_4095 : ℕ
not_4095 = 2 ^ 64 - 4096

unfoldable pub fill_file_info : FileInfo → FspFileInfo
unfolding file_time
fill_file_info info = record {
  file_attributes = record { readonly = true; directory = info.is_directory };
  file_size = info.size;
  allocation_size = bit_and ((info.size + 4095) % 2 ^ 64) not_4095;
  creation_time = file_time info.create_time;
  last_access_time = file_time info.create_time;
  last_write_time = file_time info.mod_time;
  change_time = file_time info.mod_time;
  index_number = info.inode;
}

module _ (driver : Driver) where
  open driver use {State, set_mount_point, start_dispatcher, stop_dispatcher, delete}

  -- What a call of `mount` returns, the object and the driver's state after it.
  abbrev pub Mounted : Type 0
  Mounted = Bool × WinFspApfs × State

  -- `mount` once a file system is created.
  unfoldable pub mount_created : WinFspApfs → ℕ → State → Mounted
  mount_created w fs s =
      let (placed, s1) = set_mount_point fs w.mount_point s in
      if not placed
      then (false, record w { file_system = none }, delete fs s1)
      else let (running, s2) = start_dispatcher fs s1 in
        if not running
        then (false, record w { file_system = none }, delete fs s2)
        else (true, record w { file_system = some fs }, s2)

  -- `mount` once the prefix is made. A file system that is not created is a null pointer.
  unfoldable pub mount_named : WinFspApfs → List ℕ → State → Mounted
  unfolding mount_created
  mount_named w prefix s =
      let (created, s1) = driver.create prefix s in
      elim created [
        | none ↦ (false, record w { file_system = none }, s1)
        | some fs ↦ mount_created w fs s1
      ]

  -- `prefix_of` is the conversion of the name with the copy into the parameters, `none` if it throws.
  -- Then `mount` has set the mount point and returned nothing: `none`.
  unfoldable pub mount :
      (List ℕ → Option (List ℕ)) → Volume → WinFspApfs → List ℕ → State → Result (Option Mounted)
  unfolding mount_named
  mount prefix_of volume w mount_point s = elim w.file_system [
    | some fs ↦ done (some (false, w, s))
    | none ↦ do
      name ← get_volume_name volume
      elim (prefix_of name) [
        | none ↦ done none
        | some prefix ↦ done (some (mount_named (record w { mount_point = mount_point }) prefix s))
      ]
  ]

  unfoldable pub unmount : WinFspApfs → State → WinFspApfs × State
  unmount w s = elim w.file_system [
    | none ↦ (w, s)
    | some fs ↦ (record w { file_system = none }, delete fs (stop_dispatcher fs s))
  ]
