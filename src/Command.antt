-- ===== src/Command.antt =====
-- src/main.cpp: the arguments, and the way from the device to the mounted volume. What is printed is
-- left out; the handler of signals is in Signals.
pub mod Parsing
pub mod Flow
pub mod Signals
pub mod Points
pub mod Overrun
pub mod Names
pub mod Contents
pub mod Reaching
use wamount.Base.{
  ℕ, Bool, true, false, not, ◌||◌, Option, none, some, List, [], ◌∷◌, Result, done, ◌>>=◌, ◌==◌,
  if◌then◌else◌,
}
use wamount.Volume.{Volume, get_volume_name}
use wamount.Volume.Path.{same_name}
use wamount.Disk.{Os, DiskReader, open_disk, closed, read_block}
use wamount.Container.{Container, Disk, get_volume}
use wamount.Container
use wamount.Winfsp.{Driver, WinFspApfs, mount}
use wamount.Winfsp

-- `volume_index` is what `getVolume` makes of the `int`: a `size_t`.
pub record Options : Type 0 where
  pub device_path : List ℕ
  pub mount_point : List ℕ
  pub volume_index : ℕ
  pub debug : Bool

abbrev pub default_options : Options
default_options = record { device_path = []; mount_point = []; volume_index = 0; debug = false }

-- How the program ends before it opens the device: with a code, by an exception, or not at all.
pub data Parsed : Type 0 where
  stops : ℕ → Parsed
  throws : Parsed
  goes_on : Options → Parsed

-- What the next argument is for: `argv[++i]` of an option, or nothing in particular.
pub data Expected : Type 0 where
  anything : Expected
  mount_value : Expected
  volume_value : Expected

-- "-h", "-d", "-m", "-v" and their long forms
abbrev short_option : ℕ → List ℕ
short_option c = b'-' ∷ c ∷ []

abbrev help_long : List ℕ
help_long = b'-' ∷ b'-' ∷ b'h' ∷ b'e' ∷ b'l' ∷ b'p' ∷ []

abbrev debug_long : List ℕ
debug_long = b'-' ∷ b'-' ∷ b'd' ∷ b'e' ∷ b'b' ∷ b'u' ∷ b'g' ∷ []

abbrev mount_long : List ℕ
mount_long = b'-' ∷ b'-' ∷ b'm' ∷ b'o' ∷ b'u' ∷ b'n' ∷ b't' ∷ []

abbrev volume_long : List ℕ
volume_long = b'-' ∷ b'-' ∷ b'v' ∷ b'o' ∷ b'l' ∷ b'u' ∷ b'm' ∷ b'e' ∷ []

-- `arg[0] != '-'`; the first character of an empty argument is a zero.
abbrev is_operand : List ℕ → Bool
is_operand [] = true
is_operand (c ∷ cs) = not (c == b'-')

abbrev is_empty : List ℕ → Bool
is_empty [] = true
is_empty (c ∷ cs) = false

-- The arguments are validated once all are read.
unfoldable pub validate : Options → Parsed
validate o =
    if is_empty o.device_path || is_empty o.mount_point then Parsed.stops 1 else Parsed.goes_on o

module _ (stoi : List ℕ → Option ℕ) where
  -- The loop. `stoi` is `std::stoi`, `none` where it throws.
  unfoldable pub parse : Expected → List (List ℕ) → Options → Parsed
  unfolding validate
  parse Expected.anything [] o = validate o
  parse Expected.mount_value [] o = Parsed.stops 1
  parse Expected.volume_value [] o = Parsed.stops 1
  parse Expected.mount_value (arg ∷ args) o =
      parse Expected.anything args (record o { mount_point = arg })
  parse Expected.volume_value (arg ∷ args) o = elim (stoi arg) [
    | none ↦ Parsed.throws
    | some index ↦ parse Expected.anything args (record o { volume_index = index })
  ]
  parse Expected.anything (arg ∷ args) o =
      let debug = parse Expected.anything args (record o { debug = true }) in
      let mount_next = parse Expected.mount_value args o in
      let volume_next = parse Expected.volume_value args o in
      let operand = parse Expected.anything args (record o { device_path = arg }) in
      if same_name arg (short_option b'h') || same_name arg help_long
      then Parsed.stops 0
      else if same_name arg (short_option b'd') || same_name arg debug_long
      then debug
      else if same_name arg (short_option b'm') || same_name arg mount_long
      then mount_next
      else if same_name arg (short_option b'v') || same_name arg volume_long
      then volume_next
      else if is_operand arg
      then operand
      else Parsed.stops 1

-- How the program goes on from there. `waits` is the endless loop at the end, with what it holds.
pub data Ending (State : Type 0) : Type 0 where
  exits : ℕ → Ending State
  failed : Ending State
  waits : DiskReader → Container → Volume → WinFspApfs → State → Ending State

-- A run: where it comes to, and how many bytes it has written past the end of a buffer on the way.
-- Where that is not 0 it has written over memory of the heap that belongs to something else. What is
-- told of the rest of the run is then what the code does as long as nothing that it uses stood there.
pub record Run (State : Type 0) : Type 0 where
  pub ending : Ending State
  pub overrun : ℕ

module _ (os : Os) (driver : Driver) (widen prefix_of : List ℕ → Option (List ℕ)) where
  -- The disk as the container reads it, while the device is in one state.
  unfoldable pub disk_of : DiskReader → os.State → Disk
  disk_of d s block size = (read_block os d block size s).0

  -- From the volume on: `failed` is an exception of one of the two conversions.
  unfoldable pub mount_volume :
      Options → DiskReader → Container → Volume → driver.State → Result (Ending driver.State)
  mount_volume o d c volume t = do
    name ← get_volume_name volume
    elim (widen o.mount_point) [
      | none ↦ done Ending.failed
      | some mount_point ↦ do
        mounted ← mount driver prefix_of volume Winfsp.create mount_point t
        elim mounted [
          | none ↦ done Ending.failed
          | some (good, w, t') ↦
              if good then done (Ending.waits d c volume w t') else done (Ending.exits 1)
        ]
    ]

  -- From the container on.
  unfoldable pub start_container :
      Options → DiskReader → os.State → driver.State → Result (Run driver.State)
  unfolding mount_volume disk_of
  start_container o d s t = do
    report ← Container.init (disk_of d s) Container.create
    if not report.returned
        then done (record { ending = Ending.exits 1; overrun = report.overrun })
        else do
          (c, found) ← get_volume (disk_of d s) report.state o.volume_index
          ending ← elim found [
            | none ↦ done (Ending.exits 1)
            | some volume ↦ mount_volume o d c volume t
          ]
          done (record { ending = ending; overrun = report.overrun })

  unfoldable pub start : Options → os.State → driver.State → Result (Run driver.State)
  unfolding start_container
  start o s t =
      let (opened, d, s1) = open_disk os closed o.device_path s in
      if not opened
      then done (record { ending = Ending.exits 1; overrun = 0 })
      else start_container o d s1 t
