-- ===== src/Winfsp/Callbacks.antt =====
-- The callbacks of the file system over the volume. A context is passed by value; `Contexts` has the
-- pointers, which the driver keeps from `Open` to `Close`.
use wamount.Base.{
  ℕ, ◌%◌, ◌^◌, Bool, true, not, Option, none, some, List, [], ◌∷◌, Result, done, ◌>>=◌,
  if◌then◌else◌,
}
use wamount.Bytes.{Bytes}
use wamount.Blocks.{Blocks}
use wamount.Volume.{Volume, FileInfo, get_volume_size}
use wamount.Volume.Inode.{get_file_info}
use wamount.Volume.Directory.{read_directory}
use wamount.Volume.Path.{lookup_path}
use wamount.Volume.Read.{read_file}
use wamount.Winfsp.{FileContext, Attributes, FspFileInfo, fill_file_info}

-- The codes that the callbacks return.
pub data Status : Type 0 where
  success : Status
  unsuccessful : Status
  object_name_not_found : Status
  invalid_device_request : Status
  not_a_directory : Status

pub record VolumeInfo : Type 0 where
  pub total_size : ℕ
  pub free_size : ℕ
  pub volume_label_length : ℕ

module _ (volume : Volume) (container : Option Blocks) where
  unfoldable pub volume_info : Result (Status × VolumeInfo)
  volume_info = do
    size ← get_volume_size volume container
    done (Status.success, record { total_size = size; free_size = 0; volume_label_length = 0 })

  -- `info` is the struct on the stack before the lookup; `path` is the name in UTF-8.
  unfoldable pub security_by_name : FileInfo → List ℕ → Result (Status × Option Attributes)
  security_by_name info path = do
    (found, info') ← lookup_path volume container path info
    if not found
        then done (Status.object_name_not_found, none)
        else done
            (Status.success, some (record { readonly = true; directory = info'.is_directory }))

  unfoldable pub open_file :
      FileInfo → List ℕ → Result (Status × Option (FileContext × FspFileInfo))
  open_file info path = do
    (found, info') ← lookup_path volume container path info
    if not found
        then done (Status.object_name_not_found, none)
        else done (
          Status.success,
          some (
            record { inode = info'.inode; is_directory = info'.is_directory; size = info'.size },
            fill_file_info info',
          ),
        )

  -- `none` where `*PBytesTransferred` is not written; the bytes are those that are in the buffer then.
  unfoldable pub read : FileContext → ℕ → ℕ → Result (Status × Option (ℕ × Bytes))
  read context offset length =
      if context.is_directory then done (Status.invalid_device_request, none) else do
        (good, bytes) ← read_file volume container context.inode offset length
        if not good
            then done (Status.unsuccessful, none)
            else done (Status.success, some (bytes.size % 2 ^ 32, bytes))

  unfoldable pub file_info : FileInfo → FileContext → Result (Status × Option FspFileInfo)
  file_info info context = do
    found ← get_file_info volume container context.inode info
    elim found [
      | none ↦ done (Status.unsuccessful, none)
      | some info' ↦ done (Status.success, some (fill_file_info info'))
    ]

  -- The driver's buffer and the number of bytes in it are `Listing`, and FspFileSystemAddDirInfo is
  -- `add`. The name of an entry is converted, which may throw, but is not passed on.
  module _ (Listing : Type 0) (add : FspFileInfo → Listing → Bool × Listing)
      (converts : List ℕ → Bool) where
    -- `none` is an exception.
    unfoldable pub add_entries : List FileInfo → Listing → Option Listing
    add_entries [] listing = some listing
    add_entries (entry ∷ entries) listing =
        let (added, listing') = add (fill_file_info entry) listing in
        let rest = add_entries entries listing' in
        if not (converts entry.name) then none else if not added then some listing' else rest

    unfoldable pub list_directory : FileContext → Listing → Result (Option (Status × Listing))
    unfolding add_entries
    list_directory context listing =
        if not context.is_directory then done (some (Status.not_a_directory, listing)) else do
          entries ← read_directory volume container context.inode
          elim (add_entries entries listing) [
            | none ↦ done none
            | some listing' ↦ done (some (Status.success, listing'))
          ]
