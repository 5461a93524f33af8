-- ===== src/Command/Signals.antt =====
-- `signalHandler`: what a signal leaves of the mounted file system, at the end of the program and at any
-- point of `mount`.
use wamount.Base.{ℕ, ◌≡◌, refl, true, Option, none, some, List, [], done}
use wamount.Volume.{Volume}
use wamount.Disk.{Os, DiskReader}
use wamount.Container.{Container}
use wamount.Winfsp.{Driver, WinFspApfs, unmount}
use wamount.Winfsp
use wamount.Winfsp.Mounting.{Systems, IsMatched, is_mounted, mount-IsMatched, unmount-IsMatched}
use wamount.Command.{Options, Ending, start}
use wamount.Command.Flow.{start-HasStarted}

pub data Signal : Type 0 where
  interrupt : Signal
  terminate : Signal
  other : Signal

-- `none` is a handler that returns; otherwise the program exits with the code, and this is what it
-- leaves of the object and of the driver. `g_mounted_fs` is the second argument.
unfoldable pub handle_signal :
    (driver : Driver)
    → Signal
    → Option WinFspApfs
    → driver.State
    → Option (ℕ × Option WinFspApfs × driver.State)
handle_signal driver Signal.other g t = none
handle_signal driver Signal.interrupt none t = some (0, none, t)
handle_signal driver Signal.terminate none t = some (0, none, t)
handle_signal driver Signal.interrupt (some w) t =
    let r = unmount driver w t in some (0, some r.0, r.1)
handle_signal driver Signal.terminate (some w) t =
    let r = unmount driver w t in some (0, some r.0, r.1)

abbrev pub IsStop : Signal → Type 0
IsStop Signal.other = ⊥
IsStop Signal.interrupt = Unit {0}
IsStop Signal.terminate = Unit {0}

pub stop-unmounts :
    (driver : Driver) (signal : Signal) (w : WinFspApfs) (t : driver.State)
    → IsStop signal
    → handle_signal driver signal (some w) t
      ≡ some (0, some (unmount driver w t).0, (unmount driver w t).1)
unfolding handle_signal
stop-unmounts driver Signal.other w t h = absurd h
stop-unmounts driver Signal.interrupt w t h = refl
stop-unmounts driver Signal.terminate w t h = refl

pub stop-exits :
    (driver : Driver) (signal : Signal) (t : driver.State)
    → IsStop signal
    → handle_signal driver signal none t ≡ some (0, none, t)
unfolding handle_signal
stop-exits driver Signal.other t h = absurd h
stop-exits driver Signal.interrupt t h = refl
stop-exits driver Signal.terminate t h = refl

-- Under the documented effect of the driver's calls, with no file system at the start, a program
-- that has come to its endless loop has one file system mounted, which runs, and an interrupt or a
-- request to terminate then ends it with code 0, with no file system left, none that runs, and an
-- object that knows none.
pub start-handle_signal :
    (os : Os) (driver : Driver) (systems : Systems driver)
    (widen prefix_of : List ℕ → Option (List ℕ)) (o : Options) (s : os.State) (t t' : driver.State)
    (d : DiskReader) (c : Container) (volume : Volume) (w : WinFspApfs) (lost : ℕ) (signal : Signal)
    → systems.live t ≡ []
    → systems.running t ≡ []
    → start os driver widen prefix_of o s t
      ≡ done (record { ending = Ending.waits d c volume w t'; overrun = lost })
    → IsStop signal
    → (is_mounted w ≡ true)
      × IsMatched driver systems w t'
      × ((w' : WinFspApfs) × (t'' : driver.State) × (handle_signal driver signal (some w) t'
            ≡ some (0, some w', t''))
          × (w'.file_system ≡ none)
          × (systems.live t'' ≡ [])
          × (systems.running t'' ≡ []))
unfolding Winfsp.create
start-handle_signal os driver systems widen prefix_of o s t t' d c volume w lost signal live running
      e stop =
    let (holds, (mount_point, mounted)) =
      start-HasStarted os driver widen prefix_of o s t t' d c volume w lost e in
    let (matched, told) =
      mount-IsMatched driver systems prefix_of volume Winfsp.create mount_point t (true, w, t')
        (record { live = live; running = running }) mounted in
    let (no_live, no_running, cleared) = unmount-IsMatched driver systems w t' matched in
    (
      (told.0 refl).1,
      matched,
      (
        (unmount driver w t').0,
        (unmount driver w t').1,
        stop-unmounts driver signal w t' stop,
        cleared,
        no_live,
        no_running,
      ),
    )
