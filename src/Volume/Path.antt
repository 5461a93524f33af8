-- ===== src/Volume/Path.antt =====
-- `APFSVolume::lookupPath`.
pub mod Components
pub mod Resolve
use wamount.Base.{
  ℕ, Bool, true, false, ◌&&◌, Option, none, some, List, [], ◌∷◌, ◌++◌, Result, done, ◌>>=◌, ◌==◌,
  if◌then◌else◌,
}
use wamount.Blocks.{Blocks}
use wamount.Volume.{Volume, FileInfo, get_root_inode}
use wamount.Volume.Inode.{get_file_info}
use wamount.Volume.Directory.{read_directory}

abbrev pub slash : ℕ
slash = b'/'

-- `entry.name == comp`
abbrev pub same_name : List ℕ → List ℕ → Bool
same_name [] [] = true
same_name [] (c ∷ cs) = false
same_name (b ∷ bs) [] = false
same_name (b ∷ bs) (c ∷ cs) = b == c && same_name bs cs

-- A component that `std::getline` has read is kept if it is not empty.
unfoldable pub keep : List ℕ → List (List ℕ) → List (List ℕ)
keep [] rest = rest
keep (c ∷ cs) rest = (c ∷ cs) ∷ rest

-- The loop over `std::getline(ss, component, '/')`; `component` holds what has been read of it.
unfoldable pub components_from : List ℕ → List ℕ → List (List ℕ)
unfolding keep
components_from component [] = keep component []
components_from component (c ∷ path) = elim (c == slash) [
  | true ↦ keep component (components_from [] path)
  | false ↦ components_from (component ++ c ∷ []) path
]

unfoldable pub components : List ℕ → List (List ℕ)
unfolding components_from
components path = components_from [] path

-- The first entry with the name.
unfoldable pub find_name : List ℕ → List FileInfo → Option FileInfo
find_name comp [] = none
find_name comp (entry ∷ entries) =
    if same_name entry.name comp then some entry else find_name comp entries

-- The loop over the components: what the call returns, and the caller's struct after it.
unfoldable pub walk :
    (ℕ → Result (List FileInfo)) → ℕ → FileInfo → List (List ℕ) → Result (Bool × FileInfo)
walk entries_of inode info [] = done (true, info)
walk entries_of inode info (comp ∷ comps) = do
  entries ← entries_of inode
  elim (find_name comp entries) [
    | none ↦ done (false, info)
    | some entry ↦ walk entries_of entry.inode entry comps
  ]

abbrev pub is_root : List ℕ → Bool
is_root [] = true
is_root (c ∷ cs) = same_name (c ∷ cs) (slash ∷ [])

unfoldable pub lookup_path : Volume → Option Blocks → List ℕ → FileInfo → Result (Bool × FileInfo)
lookup_path v container path info =
    if is_root path
    then (do
      found ← get_file_info v container get_root_inode info
      elim found [ none ↦ done (false, info) | some root ↦ done (true, root) ])
    else walk (read_directory v container) get_root_inode info (components path)
