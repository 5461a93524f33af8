-- ===== src/Winfsp/Names.antt =====
-- The names that the driver passes to GetSecurityByName and Open. They are looked up as they come, and
-- the names of Windows have a backslash where the volume's paths have a slash.
use wamount.Base.{ℕ, ◌≡◌, ◌≢◌, refl, false, Option, none, some, List, ◌∷◌, done, ==_ne}
use wamount.Blocks.{Blocks}
use wamount.Btree.{Btree}
use wamount.Volume.{Volume, FileInfo}
use wamount.Volume.Path.{slash, lookup_path}
use wamount.Volume.Path.Components.{components-cons}
use wamount.Volume.Path.Resolve.{lookup_path-missing}
use wamount.Winfsp.Callbacks.{Status, open_file, security_by_name}

lookup_path-cons :
    (v : Volume) (t : Btree) (container : Option Blocks) (c : ℕ) (path : List ℕ) (info : FileInfo)
    → v.root_tree ≡ some t
    → c ≢ slash
    → lookup_path v container (c ∷ path) info ≡ done (false, info)
lookup_path-cons v t container c path info tree other =
    let (comp, comps, names) = components-cons c path other in
    lookup_path-missing v t container (c ∷ path) comp comps info tree
      (rw (==_ne c slash other) refl) names

pub open_file-cons :
    (v : Volume) (t : Btree) (container : Option Blocks) (c : ℕ) (path : List ℕ) (info : FileInfo)
    → v.root_tree ≡ some t
    → c ≢ slash
    → (open_file v container info (c ∷ path) ≡ done (Status.object_name_not_found, none))
      × (security_by_name v container info (c ∷ path) ≡ done (Status.object_name_not_found, none))
unfolding open_file security_by_name
open_file-cons v t container c path info tree other =
    let missing = lookup_path-cons v t container c path info tree other in
    (rw missing refl, rw missing refl)
