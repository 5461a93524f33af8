-- ===== src/Command/Parsing.antt =====
-- The arguments that the usage describes are read back as the options that they were made from.
use wamount.Base.{
  ℕ, ◌≡◌, ◌≢◌, refl, Bool, true, false, Option, some, List, [], ◌∷◌, ◌++◌, ==_ne, ◌∙◌,
  if◌then◌else◌,
}
use wamount.Command.{Options, default_options, Parsed, Expected, parse, validate}

-- [-d] -m <mountpoint> -v <index> <device>
pub arguments : (ℕ → List ℕ) → Options → List (List ℕ)
arguments show o =
    (if o.debug then (b'-' ∷ b'd' ∷ []) ∷ [] else [])
    ++ (b'-' ∷ b'm' ∷ [])
      ∷ o.mount_point
      ∷ (b'-' ∷ b'v' ∷ [])
      ∷ show o.volume_index
      ∷ o.device_path
      ∷ []

-- A path that is not empty and does not begin with a dash.
abbrev pub IsOperand : List ℕ → Type 0
IsOperand [] = ⊥
IsOperand (c ∷ cs) = c ≢ b'-'

abbrev pub IsGiven : List ℕ → Type 0
IsGiven [] = ⊥
IsGiven (c ∷ cs) = Unit {0}

-- The last argument is taken for the device.
device-last :
    (stoi : List ℕ → Option ℕ) (path : List ℕ) (o : Options)
    → IsOperand path
    → parse stoi Expected.anything (path ∷ []) o ≡ validate (record o { device_path = path })
unfolding parse
device-last stoi [] o h = absurd h
device-last stoi (c ∷ cs) o h = rw (==_ne c b'-' h) refl

validate-given :
    (path mount_point : List ℕ) (index : ℕ) (debug : Bool)
    → IsOperand path
    → IsGiven mount_point
    → let o = record default_options {
      device_path = path;
      mount_point = mount_point;
      volume_index = index;
      debug = debug;
    } in
      validate o ≡ Parsed.goes_on o
unfolding validate
validate-given [] mount_point index debug h g = absurd h
validate-given (c ∷ cs) [] index debug h g = absurd g
validate-given (c ∷ cs) (m ∷ ms) index debug h g = refl

from_mount :
    (stoi : List ℕ → Option ℕ) (show : ℕ → List ℕ) (path mount_point : List ℕ) (index : ℕ)
    (debug : Bool)
    → stoi (show index) ≡ some index
    → IsOperand path
    → IsGiven mount_point
    → parse stoi Expected.anything
        ((b'-' ∷ b'm' ∷ []) ∷ mount_point ∷ (b'-' ∷ b'v' ∷ []) ∷ show index ∷ path ∷ [])
        (record default_options { debug = debug })
      ≡ Parsed.goes_on (record {
        device_path = path;
        mount_point = mount_point;
        volume_index = index;
        debug = debug;
      })
unfolding parse
from_mount stoi show path mount_point index debug number h g = rw number (
    device-last stoi path
      (record default_options { mount_point = mount_point; volume_index = index; debug = debug }) h
    ∙ validate-given path mount_point index debug h g)

from_debug :
    (stoi : List ℕ → Option ℕ) (show : ℕ → List ℕ) (path mount_point : List ℕ) (index : ℕ)
    (debug : Bool)
    → stoi (show index) ≡ some index
    → IsOperand path
    → IsGiven mount_point
    → let o : Options = record {
      device_path = path;
      mount_point = mount_point;
      volume_index = index;
      debug = debug;
    } in
      parse stoi Expected.anything (arguments show o) default_options ≡ Parsed.goes_on o
unfolding parse arguments
from_debug stoi show path mount_point index true number h g =
    from_mount stoi show path mount_point index true number h g
from_debug stoi show path mount_point index false number h g =
    from_mount stoi show path mount_point index false number h g

-- The arguments that spell options out in the order of the usage are parsed back to those options,
-- where the device's path is not empty and does not begin with a dash, the mount point is not
-- empty, and the digits of the volume's index are read back as the index.
pub parse-roundtrip :
    (stoi : List ℕ → Option ℕ) (show : ℕ → List ℕ) (o : Options)
    → stoi (show o.volume_index) ≡ some o.volume_index
    → IsOperand o.device_path
    → IsGiven o.mount_point
    → parse stoi Expected.anything (arguments show o) default_options ≡ Parsed.goes_on o
parse-roundtrip stoi show o number h g =
    from_debug stoi show o.device_path o.mount_point o.volume_index o.debug number h g
