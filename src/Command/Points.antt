-- ===== src/Command/Points.antt =====
-- `signalHandler` while `main` mounts: from the construction of the object on, which `g_mounted_fs` then
-- points to, to the end of the call of `mount`.
use wamount.Base.{
  ℕ, ◌≡◌, ◌↔◌, ◌∙◌, refl, sym, ap, subst, false, Option, none, some, List, [], ◌∷◌, map, Any,
  Any-map, map-Any, last, last-map, IsCovered, IsCovered-map, IsCovered-cons, inl, inr,
}
use mathlib.Core.Option.{some-injective, none-ne-some}
use wamount.Winfsp.{Driver, WinFspApfs, mount_named, unmount}
use wamount.Winfsp
use wamount.Winfsp.Mounting.{Systems}
use wamount.Winfsp.Points.{
  Point, mount_points, StopsNothing, IsClean, IsDangling, IsWindow, cleared-IsClean,
  mount_points-IsCovered, mount_points-IsDangling, mount_points-last,
}
use wamount.Command.Signals.{Signal, handle_signal, IsStop, stop-unmounts, stop-exits}

module _ (driver : Driver) where
  -- `g_mounted_fs`, with the object that it points to, and the driver's state, as the handler finds them.
  abbrev pub Seen : Type 0
  Seen = Option WinFspApfs × driver.State

  abbrev pub seen : Point driver → Seen
  seen (w, s) = (some w, s)

  -- The object that `mount` goes on with once it has taken the mount point over.
  abbrev pub placed_at : List ℕ → WinFspApfs
  placed_at mount_point = record Winfsp.create { mount_point = mount_point }

  -- From there on. Where the conversion of the volume's name throws there is no further point.
  unfoldable inside_mount : List ℕ → Option (List ℕ) → driver.State → List Seen
  inside_mount mount_point none t = []
  inside_mount mount_point (some prefix) t =
      map seen (mount_points driver (placed_at mount_point) prefix t)

  -- What the handler may find. `g_mounted_fs` is null at first; then it points to the new object, and
  -- `mount` is called, which takes the mount point over.
  unfoldable pub mounting_points : List ℕ → Option (List ℕ) → driver.State → List Seen
  unfolding inside_mount
  mounting_points mount_point name t =
      (none, t)
      ∷ (some Winfsp.create, t)
      ∷ (some (placed_at mount_point), t)
      ∷ inside_mount mount_point name t

  -- What the call of `mount` leaves.
  abbrev pub after_mount : List ℕ → Option (List ℕ) → driver.State → Seen
  after_mount mount_point none t = (some (placed_at mount_point), t)
  after_mount mount_point (some prefix) t =
      let r = mount_named driver (placed_at mount_point) prefix t in (some r.1, r.2)

  mounting_points-last :
      (mount_point : List ℕ) (name : Option (List ℕ)) (t : driver.State)
      → last (none, t) (mounting_points mount_point name t) ≡ after_mount mount_point name t
  unfolding mounting_points inside_mount
  mounting_points-last mount_point none t = refl
  mounting_points-last mount_point (some prefix) t =
      let start : Point driver = (placed_at mount_point, t) in
      last-map seen start (mount_points driver (placed_at mount_point) prefix t)
      ∙ ap seen (mount_points-last driver (placed_at mount_point) prefix t start)

module _ (driver : Driver) (systems : Systems driver) (signal : Signal) where
  abbrev pub KnowsNone : Option WinFspApfs → Type 0
  KnowsNone none = Unit
  KnowsNone (some w) = w.file_system ≡ none

  -- The handler ends the program with code 0 and leaves no file system, none that runs, and no object
  -- that knows one.
  abbrev pub EndsClean : Seen driver → Type 0
  EndsClean (g, t) =
      (g' : Option WinFspApfs) × (t' : driver.State) × (handle_signal driver signal g t
        ≡ some (0, g', t'))
      × KnowsNone g'
      × (systems.live t' ≡ [])
      × (systems.running t' ≡ [])

  -- No file system exists, and the handler stops and deletes this one.
  abbrev pub DeletesAgain : ℕ → Seen driver → Type 0
  DeletesAgain fs (g, t) =
      (w : WinFspApfs) × (g ≡ some w)
      × (w.file_system ≡ some fs)
      × (systems.live t ≡ [])
      × (handle_signal driver signal g t
          ≡ some (
            0,
            some (record w { file_system = none }),
            driver.delete fs (driver.stop_dispatcher fs t),
          ))

  -- The first point is one of these, and at the second the object knows no file system, with nothing
  -- else that has changed.
  abbrev pub IsCleared : Seen driver → Seen driver → Type 0
  IsCleared (g, t) (g', t') = ((fs : ℕ) × DeletesAgain fs (g, t)) × KnowsNone g' × (t' ≡ t)

  IsClean-EndsClean :
      IsStop signal → (p : Point driver) → IsClean driver systems p → EndsClean (seen driver p)
  IsClean-EndsClean stop (w, s) (live, running, knows) =
      let r = unmount driver w s in
      (some r.0, r.1, stop-unmounts driver signal w s stop, knows, live, running)

  IsDangling-DeletesAgain :
      IsStop signal
      → (fs : ℕ) (p : Point driver) → IsDangling driver systems fs p
      → DeletesAgain fs (seen driver p)
  unfolding unmount
  IsDangling-DeletesAgain stop fs (w, s) (knows, live) =
      (w, refl, knows, live, stop-unmounts driver signal w s stop ∙ rw knows refl)

  DeletesAgain-IsDangling :
      (fs : ℕ) (p : Point driver) → DeletesAgain fs (seen driver p) → IsDangling driver systems fs p
  DeletesAgain-IsDangling fs (w, s) (w', same, knows, live, ends) =
      (ap (λ (v : WinFspApfs). v.file_system) (some-injective w w' same) ∙ knows, live)

  none-EndsClean :
      IsStop signal
      → (t : driver.State) → systems.live t ≡ []
      → systems.running t ≡ []
      → EndsClean (none, t)
  none-EndsClean stop t live running = (none, t, stop-exits driver signal t stop, tt, live, running)

  unmounted-EndsClean :
      IsStop signal
      → (w : WinFspApfs) (t : driver.State) → w.file_system ≡ none
      → systems.live t ≡ []
      → systems.running t ≡ []
      → EndsClean (some w, t)
  unfolding unmount
  unmounted-EndsClean stop w t knows live running =
      IsClean-EndsClean stop (w, t)
        (subst (λ (o : Option ℕ). IsClean driver systems (record w { file_system = o }, t))
          (sym knows) (cleared-IsClean driver systems w t live running))

  covered :
      (mount_point : List ℕ) (name : Option (List ℕ)) (t : driver.State)
      → IsStop signal
      → StopsNothing driver systems
      → systems.live t ≡ []
      → systems.running t ≡ []
      → IsCovered EndsClean IsCleared (mounting_points driver mount_point name t)
  unfolding mounting_points inside_mount Winfsp.create
  covered mount_point name t stop stops live running = (
    inl (none-EndsClean stop t live running),
    (
      inl (unmounted-EndsClean stop Winfsp.create t refl live running),
      IsCovered-cons EndsClean IsCleared _ _
          (unmounted-EndsClean stop (placed_at driver mount_point) t refl live running)
          (inside name),
    ),
  )
    where
      inside :
          (name' : Option (List ℕ))
          → IsCovered EndsClean IsCleared (inside_mount driver mount_point name' t)
      inside none = tt
      inside (some prefix) =
          IsCovered-map (IsClean driver systems) (IsWindow driver systems) EndsClean IsCleared
            (seen driver) (IsClean-EndsClean stop)
            (λ p q window. (
              (window.0.0, IsDangling-DeletesAgain stop window.0.0 p window.0.1),
              window.1,
              window.2,
            ))
            (mount_points driver (placed_at driver mount_point) prefix t)
            (mount_points-IsCovered driver systems (placed_at driver mount_point) prefix t stops
              live running)

  -- Under the documented effect of the driver's calls, a stop of a dispatcher that does not run
  -- included, with no file system at the start, an interrupt or a request to terminate that comes
  -- in between two steps of main from the point before g_mounted_fs is set on, through the calls of
  -- mount, to its return, ends the program with code 0 with no file system left, none that runs,
  -- and no object that knows one; or it comes in at a point where the object knows a file system
  -- while none exists, so that the handler stops and deletes it again, and the very next point,
  -- over the same state of the driver, has an object that knows none. The last point is of the
  -- first kind, and it is what the call of mount leaves.
  pub mounting_points-IsCovered :
      (mount_point : List ℕ) (name : Option (List ℕ)) (t : driver.State)
      → IsStop signal
      → StopsNothing driver systems
      → systems.live t ≡ []
      → systems.running t ≡ []
      → IsCovered EndsClean IsCleared (mounting_points driver mount_point name t)
        × (last (none, t) (mounting_points driver mount_point name t)
            ≡ after_mount driver mount_point name t)
  mounting_points-IsCovered mount_point name t stop stops live running = (
    covered mount_point name t stop stops live running,
    mounting_points-last driver mount_point name t,
  )

  unmounted-DeletesAgain :
      (w : WinFspApfs) (t : driver.State) (fs : ℕ)
      → w.file_system ≡ none
      → ¬ DeletesAgain fs (some w, t)
  unmounted-DeletesAgain w t fs none_known again =
      let (knows, live) = DeletesAgain-IsDangling fs (w, t) again in
      none-ne-some fs (sym none_known ∙ knows)

  -- Under the documented effect of the driver's calls, with no file system at the start, there is a
  -- point, from the one before g_mounted_fs is set to the return of mount, at which an interrupt or
  -- a request to terminate stops and deletes a certain file system while none exists, and ends the
  -- program with code 0, exactly when the name of the volume is converted, the driver makes that
  -- file system, and mount fails.
  pub mounting_points-DeletesAgain :
      (mount_point : List ℕ) (name : Option (List ℕ)) (t : driver.State) (fs : ℕ)
      → IsStop signal
      → systems.live t ≡ []
      → Any (DeletesAgain fs) (mounting_points driver mount_point name t) ↔ (
          (prefix : List ℕ) × (name ≡ some prefix)
          × ((driver.create prefix t).0 ≡ some fs)
          × ((mount_named driver (placed_at driver mount_point) prefix t).0 ≡ false))
  unfolding mounting_points inside_mount Winfsp.create
  mounting_points-DeletesAgain mount_point none t fs stop live = (
    λ any. elim any [
      | inl again ↦ absurd (none-ne-some again.0 again.1)
      | inr (inl again) ↦ absurd (unmounted-DeletesAgain Winfsp.create t fs refl again)
      | inr (inr (inl again)) ↦
          absurd (unmounted-DeletesAgain (placed_at driver mount_point) t fs refl again)
      | inr (inr (inr past)) ↦ absurd past
    ],
    λ made. absurd (none-ne-some made.0 made.1),
  )
  mounting_points-DeletesAgain mount_point (some prefix) t fs stop live =
      let w = placed_at driver mount_point in
      let points = mount_points driver w prefix t in
      let dangling = mount_points-IsDangling driver systems w prefix t fs live in
      (
        λ any. elim any [
          | inl again ↦ absurd (none-ne-some again.0 again.1)
          | inr (inl again) ↦ absurd (unmounted-DeletesAgain Winfsp.create t fs refl again)
          | inr (inr (inl again)) ↦ absurd (unmounted-DeletesAgain w t fs refl again)
          | inr (inr (inr inside)) ↦
              let (made, refused) = dangling.0 (
                map-Any (IsDangling driver systems fs) (DeletesAgain fs) (seen driver)
                  (DeletesAgain-IsDangling fs) points inside) in
              (prefix, refl, made, refused)
        ],
        λ (other, same, made, refused).
            let same_prefix : other ≡ prefix = sym (some-injective prefix other same) in
            inr (
              inr (
                inr (
                  Any-map (IsDangling driver systems fs) (DeletesAgain fs) (seen driver)
                    (IsDangling-DeletesAgain stop fs) points
                    (dangling.1 (
                      subst
                        (λ (p : List ℕ).
                          ((driver.create p t).0 ≡ some fs)
                          × ((mount_named driver w p t).0 ≡ false))
                        same_prefix (made, refused)))))),
      )
