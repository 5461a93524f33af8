-- ===== src/Command/Names.antt =====
-- What a mounted volume answers to the names of Windows.
use wamount.Base.{ℕ, ◌≡◌, ◌≢◌, Option, none, List, ◌∷◌, done}
use wamount.Blocks.{Blocks}
use wamount.Volume.{Volume, FileInfo}
use wamount.Volume.Path.{slash}
use wamount.Disk.{Os, DiskReader}
use wamount.Container.{Container}
use wamount.Winfsp.{Driver, WinFspApfs}
use wamount.Winfsp.Callbacks.{Status, open_file, security_by_name}
use wamount.Winfsp.Names.{open_file-cons}
use wamount.Command.{Options, Ending, start}
use wamount.Command.Flow.{start-waits}

-- A program that has come to its endless loop answers Open and GetSecurityByName with
-- STATUS_OBJECT_NAME_NOT_FOUND for every name that begins with anything but a slash, such as a
-- backslash, whatever the disk holds.
pub start-open_file :
    (os : Os) (driver : Driver) (widen prefix_of : List ℕ → Option (List ℕ)) (o : Options)
    (s : os.State) (t t' : driver.State) (d : DiskReader) (c : Container) (volume : Volume)
    (w : WinFspApfs) (lost : ℕ) (container : Option Blocks) (info : FileInfo) (first : ℕ)
    (name : List ℕ)
    → start os driver widen prefix_of o s t
      ≡ done (record { ending = Ending.waits d c volume w t'; overrun = lost })
    → first ≢ slash
    → (open_file volume container info (first ∷ name) ≡ done (Status.object_name_not_found, none))
      × (security_by_name volume container info (first ∷ name)
          ≡ done (Status.object_name_not_found, none))
start-open_file os driver widen prefix_of o s t t' d c volume w lost container info first name e
      other =
    let (is_named, ready, held) =
      start-waits os driver widen prefix_of o s t t' d c volume w lost e in
    open_file-cons volume _ container first name info ready.tree other
