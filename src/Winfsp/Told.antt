-- ===== src/Winfsp/Told.antt =====
-- What GetFileInfo tells the driver, whatever the block of the root holds.
use wamount.Base.{
  ℕ, ◌+◌, ◌*◌, ◌/◌, ◌^◌, ◌<◌, ◌≡◌, refl, arith, ◌∙◌, sym, ap, subst, true, some, none, done,
  Result-cases, inl, inr,
}
use wamount.Blocks.{Blocks}
use wamount.Btree.{Btree}
use wamount.Volume.{Volume, FileInfo}
use wamount.Volume.Inode.{get_file_info}
use wamount.Volume.Inode.Ranges.{IsTyped, IsReadInBytes, get_file_info-IsTyped}
use wamount.Winfsp.{FileContext, FspFileInfo, fill_file_info, file_time}
use wamount.Winfsp.Callbacks.{Status, file_info}

-- Whole seconds since 1601, in units of 100 nanoseconds, from nanoseconds since 1970.
abbrev pub since_1601 : ℕ → ℕ
since_1601 time = (time / 1000000000 + 11644473600) * 10000000

-- The driver is told of the file as it is, with nothing lost to wrap-around.
pub record Tells (told : FspFileInfo) (info : FileInfo) : Type 0 where
  pub readonly : told.file_attributes.readonly ≡ true
  pub directory : told.file_attributes.directory ≡ info.is_directory
  pub file_size : told.file_size ≡ info.size
  pub creation_time : told.creation_time ≡ since_1601 info.create_time
  pub last_access_time : told.last_access_time ≡ since_1601 info.create_time
  pub last_write_time : told.last_write_time ≡ since_1601 info.mod_time
  pub change_time : told.change_time ≡ since_1601 info.mod_time
  pub times_short : (told.creation_time < 2 ^ 63) × (told.last_write_time < 2 ^ 63)

file_time-since_1601 : (time : ℕ) → time < 2 ^ 64 → file_time time ≡ since_1601 time
unfolding file_time
file_time-since_1601 time h = omega arith

fill_file_info-Tells : (info : FileInfo) → IsTyped info → Tells (fill_file_info info) info
unfolding fill_file_info
fill_file_info-Tells info typed =
    let created = file_time-since_1601 info.create_time typed.create_time in
    let changed = file_time-since_1601 info.mod_time typed.mod_time in
    record {
      readonly = refl;
      directory = refl;
      file_size = refl;
      creation_time = created;
      last_access_time = created;
      last_write_time = changed;
      change_time = changed;
      times_short =
          (omega (arith, created, typed.create_time), omega (arith, changed, typed.mod_time));
    }

fill_file_info-index_number : (info : FileInfo) → (fill_file_info info).index_number ≡ info.inode
unfolding fill_file_info
fill_file_info-index_number info = refl

-- On a volume with a tree, whatever the block of the root holds, as long as it consists of bytes, a
-- GetFileInfo that is answered with a success tells the driver of the file that getFileInfo gives
-- for the number in the context: the size and the kind as they are, read-only, and the times as
-- whole seconds since 1601 in units of 100 nanoseconds, with nothing lost to wrap-around and below
-- 2^63.
pub file_info-Tells :
    (v : Volume) (t : Btree) (blocks : Blocks) (context : FileContext) (info : FileInfo)
    (told : FspFileInfo)
    → v.root_tree ≡ some t
    → IsReadInBytes t blocks
    → file_info v (some blocks) info context ≡ done (Status.success, some told)
    → (new : FileInfo) × (get_file_info v (some blocks) context.inode info ≡ done (some new))
      × Tells told new
      × (told.index_number ≡ context.inode)
unfolding file_info
file_info-Tells v t blocks context info told tree bytes e =
    elim (Result-cases (get_file_info v (some blocks) context.inode info)) [
      | inl p ↦ absurd (ground (arith, p, e))
      | inr (none, p) ↦ absurd (ground (arith, p, e))
      | inr (some new, p) ↦
          let same : fill_file_info new ≡ told = ground (arith, p, e) in
          let (typed, number) =
            get_file_info-IsTyped v t blocks context.inode info new tree bytes p in
          (
            new,
            p,
            subst (λ (x : FspFileInfo). Tells x new) same (fill_file_info-Tells new typed),
            ap (λ (x : FspFileInfo). x.index_number) (sym same)
                ∙ fill_file_info-index_number new
                ∙ number,
          )
    ]
