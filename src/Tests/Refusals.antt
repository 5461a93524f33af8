-- ===== src/Tests/Refusals.antt =====
-- A signal that comes in while the volume is mounted, on a driver that
-- refuses the mount point.
use wamount.Base.{
  ℕ, ◌≡◌, ◌↔◌, refl, ap, true, false, Option, some, none, List, [], ◌∷◌, Any, IsCovered, last,
}
use wamount.Winfsp.{Driver, mount_named, mount_created, create}
use wamount.Winfsp.Mounting.{Systems}
use wamount.Winfsp.Points.{StopsNothing}
use wamount.Command.Signals.{Signal}
use wamount.Command.Points.{
  mounting_points, after_mount, placed_at, EndsClean, IsCleared, DeletesAgain,
  mounting_points-IsCovered, mounting_points-DeletesAgain,
}
use wamount.Tests.Data.{some-ne-none, true-ne-false}
use wamount.Tests.Mounts.{tail}

-- "abc"
abbrev volume_prefix : List ℕ
volume_prefix = 97 ∷ 98 ∷ 99 ∷ []

-- "E:"
abbrev mount_point : List ℕ
mount_point = b'E' ∷ b':' ∷ []

-- A driver that makes the file system 4 and refuses its mount point.
abbrev refusing : Driver
refusing = record {
  State = List ℕ × List ℕ;
  create = λ prefix s. (some 4, (4 ∷ s.0, s.1));
  set_mount_point = λ fs mount_point s. (false, s);
  start_dispatcher = λ fs s. (true, (s.0, fs ∷ s.1));
  stop_dispatcher = λ fs s. (s.0, tail s.1);
  delete = λ fs s. (tail s.0, s.1);
}

abbrev refusing_systems : Systems refusing
refusing_systems = record {
  live = λ s. s.0;
  running = λ s. s.1;
  creates = λ prefix s fs e.
      (ap (λ (o : Option ℕ). elim o [ none ↦ 4 ∷ s.0 | some x ↦ x ∷ s.0 ]) e, refl);
  creates_none = λ prefix s e. absurd (some-ne-none 4 e);
  places = λ fs mount_point s. (refl, refl);
  starts = λ fs s e. (refl, refl);
  starts_not = λ fs s e. absurd (true-ne-false e);
  stops = λ fs s rest e. (refl, ap tail e);
  deletes = λ fs s rest e. (ap tail e, refl);
}

stops : StopsNothing refusing refusing_systems
stops fs s idle = (refl, ap tail idle)

mounting_points-IsCovered_example :
    IsCovered
      (EndsClean refusing refusing_systems Signal.interrupt)
      (IsCleared refusing refusing_systems Signal.interrupt)
      (mounting_points refusing mount_point (some volume_prefix) ([], []))
    × (last (none, ([], [])) (mounting_points refusing mount_point (some volume_prefix) ([], []))
        ≡ after_mount refusing mount_point (some volume_prefix) ([], []))
mounting_points-IsCovered_example =
    mounting_points-IsCovered refusing refusing_systems Signal.interrupt mount_point
      (some volume_prefix) ([], []) tt stops refl refl

mounting_points-DeletesAgain_example :
    Any
      (DeletesAgain refusing refusing_systems Signal.terminate 4)
      (mounting_points refusing mount_point (some volume_prefix) ([], []))
    ↔ ((prefix : List ℕ) × (some volume_prefix ≡ some prefix)
        × ((refusing.create prefix ([], [])).0 ≡ some 4)
        × ((mount_named refusing (placed_at refusing mount_point) prefix ([], [])).0 ≡ false))
mounting_points-DeletesAgain_example =
    mounting_points-DeletesAgain refusing refusing_systems Signal.terminate mount_point
      (some volume_prefix) ([], []) 4 tt refl

-- Both sides hold here: the driver makes the file system 4, and mount fails.
refused :
    Any
      (DeletesAgain refusing refusing_systems Signal.terminate 4)
      (mounting_points refusing mount_point (some volume_prefix) ([], []))
unfolding mount_named mount_created create
refused =
    (mounting_points-DeletesAgain refusing refusing_systems Signal.terminate mount_point
        (some volume_prefix) ([], []) 4 tt refl).1
      (volume_prefix, refl, refl, refl)
