-- ===== src/Winfsp/Points.antt =====
-- The points between the calls of `mount`, where the handler of a signal may come in: the object and the
-- driver's state as the handler then finds them.
use mathlib.Core.Bool.{false≢true}
use mathlib.Core.Option.{some-injective, none-ne-some}
use wamount.Base.{
  ℕ, ◌≡◌, ◌≢◌, ◌⊎◌, ◌↔◌, inl, inr, refl, ap, sym, subst, ◌∙◌, arith, true, false, not, none, some,
  List, [], ◌∷◌, All, Any, All-Any, last, IsCovered, Bool-cases, Option-cases, if◌then◌else◌,
}
use wamount.Winfsp.{Driver, WinFspApfs, mount_created, mount_named, unmount}
use wamount.Winfsp.Mounting.{Systems}

module _ (driver : Driver) where
  abbrev pub Point : Type 0
  Point = WinFspApfs × driver.State

  -- From the call of FspFileSystemCreate on, which writes `file_system_`. Where a step fails the file
  -- system is deleted first, and the pointer is cleared after that.
  unfoldable pub created_points : WinFspApfs → ℕ → driver.State → List Point
  created_points w fs s =
      let known : WinFspApfs = record w { file_system = some fs } in
      let cleared : WinFspApfs = record w { file_system = none } in
      let (placed, s1) = driver.set_mount_point fs w.mount_point s in
      let (running, s2) = driver.start_dispatcher fs s1 in
      (known, s)
      ∷ (known, s1)
      ∷ (if not placed
          then (known, driver.delete fs s1) ∷ (cleared, driver.delete fs s1) ∷ []
          else (known, s2)
            ∷ (if not running
                then (known, driver.delete fs s2) ∷ (cleared, driver.delete fs s2) ∷ []
                else []))

  unfoldable pub mount_points : WinFspApfs → List ℕ → driver.State → List Point
  unfolding created_points
  mount_points w prefix s =
      let cleared : WinFspApfs = record w { file_system = none } in
      let (created, s1) = driver.create prefix s in
      (cleared, s) ∷ (elim created [ none ↦ (cleared, s1) ∷ [] | some fs ↦ created_points w fs s1 ])

module _ (driver : Driver) where
  -- The last point is what `mount` leaves.
  pub mount_points-last :
      (w : WinFspApfs) (prefix : List ℕ) (s : driver.State) (first : Point driver)
      → last first (mount_points driver w prefix s)
        ≡ ((mount_named driver w prefix s).1, (mount_named driver w prefix s).2)
  unfolding mount_points created_points mount_named mount_created
  mount_points-last w prefix s first = ground arith

module _ (driver : Driver) (systems : Systems driver) where
  -- Stopping the dispatcher of a file system where none runs does nothing.
  abbrev pub StopsNothing : Type 0
  StopsNothing =
      (fs : ℕ) (s : driver.State)
      → systems.running s ≡ []
      → (systems.live (driver.stop_dispatcher fs s) ≡ systems.live s)
        × (systems.running (driver.stop_dispatcher fs s) ≡ [])

  -- A handler that comes in here leaves nothing behind.
  abbrev pub IsClean : Point driver → Type 0
  IsClean (w, s) =
      (systems.live (unmount driver w s).1 ≡ [])
      × (systems.running (unmount driver w s).1 ≡ [])
      × ((unmount driver w s).0.file_system ≡ none)

  -- The object knows a file system, while none exists.
  abbrev pub IsDangling : ℕ → Point driver → Type 0
  IsDangling fs (w, s) = (w.file_system ≡ some fs) × (systems.live s ≡ [])

  -- At the first point the object knows a file system, while none exists; at the second, over the same
  -- state, it knows none.
  abbrev pub IsWindow : Point driver → Point driver → Type 0
  IsWindow (w, s) (w', s') = ((fs : ℕ) × IsDangling fs (w, s)) × (w'.file_system ≡ none) × (s' ≡ s)

  pub cleared-IsClean :
      (w : WinFspApfs) (s : driver.State)
      → systems.live s ≡ []
      → systems.running s ≡ []
      → IsClean (record w { file_system = none }, s)
  unfolding unmount
  cleared-IsClean w s live running = (live, running, refl)

  idle-IsClean :
      (w : WinFspApfs) (fs : ℕ) (s : driver.State)
      → StopsNothing
      → systems.live s ≡ fs ∷ []
      → systems.running s ≡ []
      → IsClean (record w { file_system = some fs }, s)
  unfolding unmount
  idle-IsClean w fs s stops live running =
      let (live1, running1) = stops fs s running in
      let (live2, running2) = systems.deletes fs (driver.stop_dispatcher fs s) [] (live1 ∙ live) in
      (live2, running2 ∙ running1, refl)

  running-IsClean :
      (w : WinFspApfs) (fs : ℕ) (s : driver.State)
      → systems.live s ≡ fs ∷ []
      → systems.running s ≡ fs ∷ []
      → IsClean (record w { file_system = some fs }, s)
  unfolding unmount
  running-IsClean w fs s live running =
      let (live1, running1) = systems.stops fs s [] running in
      let (live2, running2) = systems.deletes fs (driver.stop_dispatcher fs s) [] (live1 ∙ live) in
      (live2, running2 ∙ running1, refl)

  created_points-IsCovered :
      (w : WinFspApfs) (fs : ℕ) (s : driver.State)
      → StopsNothing
      → systems.live s ≡ fs ∷ []
      → systems.running s ≡ []
      → IsCovered IsClean IsWindow (created_points driver w fs s)
  unfolding created_points
  created_points-IsCovered w fs s stops live running =
      let known : WinFspApfs = record w { file_system = some fs } in
      let s1 = (driver.set_mount_point fs w.mount_point s).1 in
      let s2 = (driver.start_dispatcher fs s1).1 in
      let (live1, running1) = systems.places fs w.mount_point s in
      let live_s1 = live1 ∙ live in
      let running_s1 = running1 ∙ running in
      let first = idle-IsClean w fs s stops live running in
      let second = idle-IsClean w fs s1 stops live_s1 running_s1 in
      elim (Bool-cases (driver.set_mount_point fs w.mount_point s).0) [
        | inr refused ↦
            let (gone, idle) = systems.deletes fs s1 [] live_s1 in
            rw (refused, created_points)
              (
                inl first,
                (
                  inl second,
                  (
                    inr ((fs, (refl, gone)), refl, refl),
                    cleared-IsClean w _ gone (idle ∙ running_s1),
                  ),
                ),
              )
        | inl placed ↦ elim (Bool-cases (driver.start_dispatcher fs s1).0) [
          | inr refused ↦
              let (live2, running2) = systems.starts_not fs s1 refused in
              let (gone, idle) = systems.deletes fs s2 [] (live2 ∙ live_s1) in
              let third = idle-IsClean w fs s2 stops (live2 ∙ live_s1) (running2 ∙ running_s1) in
              let cleared = cleared-IsClean w _ gone (idle ∙ running2 ∙ running_s1) in
              rw (placed, refused, created_points)
                (
                  inl first,
                  (inl second, (inl third, (inr ((fs, (refl, gone)), refl, refl), cleared))),
                )
          | inl started ↦
              let (live2, running2) = systems.starts fs s1 started in
              let running_s2 = running2 ∙ ap (λ (l : List ℕ). fs ∷ l) running_s1 in
              rw (placed, started, created_points)
                (inl first, (inl second, running-IsClean w fs s2 (live2 ∙ live_s1) running_s2))
        ]
      ]

  -- At every point of mount a handler leaves nothing behind, or it comes in between the deletion of a
  -- file system and the write that clears the pointer, which follows at once.
  pub mount_points-IsCovered :
      (w : WinFspApfs) (prefix : List ℕ) (s : driver.State)
      → StopsNothing
      → systems.live s ≡ []
      → systems.running s ≡ []
      → IsCovered IsClean IsWindow (mount_points driver w prefix s)
  unfolding mount_points created_points
  mount_points-IsCovered w prefix s stops live running =
      let s1 = (driver.create prefix s).1 in
      elim (Option-cases (driver.create prefix s).0) [
        | inl refused ↦
            let (live1, running1) = systems.creates_none prefix s refused in
            rw (refused, mount_points)
              (
                inl (cleared-IsClean w s live running),
                cleared-IsClean w s1 (live1 ∙ live) (running1 ∙ running),
              )
        | inr (fs, made) ↦
            let (live1, running1) = systems.creates prefix s fs made in
            rw (made, mount_points)
              (
                inl (cleared-IsClean w s live running),
                created_points-IsCovered w fs s1 stops (live1 ∙ ap (λ (l : List ℕ). fs ∷ l) live)
                    (running1 ∙ running),
              )
      ]

  -- The object knows no other file system than this one.
  abbrev KnowsOnly : ℕ → Point driver → Type 0
  KnowsOnly fs (w, s) = (other : ℕ) → w.file_system ≡ some other → other ≡ fs

  created_points-KnowsOnly :
      (w : WinFspApfs) (fs : ℕ) (s : driver.State)
      → All (KnowsOnly fs) (created_points driver w fs s)
  unfolding created_points
  created_points-KnowsOnly w fs s =
      let s1 = (driver.set_mount_point fs w.mount_point s).1 in
      let known : (other : ℕ) → some fs ≡ some other → other ≡ fs =
        λ other e. sym (some-injective fs other e) in
      let cleared : (other : ℕ) → none ≡ some other → other ≡ fs = λ other e. cc in
      elim (Bool-cases (driver.set_mount_point fs w.mount_point s).0) [
        | inr refused ↦ rw (refused, created_points) (known, (known, (known, (cleared, tt))))
        | inl placed ↦ elim (Bool-cases (driver.start_dispatcher fs s1).0) [
          | inr refused ↦
              rw (placed, refused, created_points) (known, (known, (known, (known, (cleared, tt)))))
          | inl started ↦ rw (placed, started, created_points) (known, (known, (known, tt)))
        ]
      ]

  abbrev IsLive : Point driver → Type 0
  IsLive (w, s) = systems.live s ≢ []

  -- The file system lives at all points of a mount that succeeds; in one that fails there is a point
  -- at which it does not, and the object knows it.
  created_points-outcome :
      (w : WinFspApfs) (fs : ℕ) (s : driver.State)
      → systems.live s ≡ fs ∷ []
      → (((mount_created driver w fs s).0 ≡ true) × All IsLive (created_points driver w fs s))
        ⊎ (((mount_created driver w fs s).0 ≡ false)
            × Any (IsDangling fs) (created_points driver w fs s))
  unfolding created_points mount_created
  created_points-outcome w fs s live =
      let s1 = (driver.set_mount_point fs w.mount_point s).1 in
      let s2 = (driver.start_dispatcher fs s1).1 in
      let (live1, running1) = systems.places fs w.mount_point s in
      elim (Bool-cases (driver.set_mount_point fs w.mount_point s).0) [
        | inr refused ↦
            let (gone, idle) = systems.deletes fs s1 [] (live1 ∙ live) in
            inr (rw refused refl, rw (refused, created_points) (inr (inr (inl (refl, gone)))))
        | inl placed ↦ elim (Bool-cases (driver.start_dispatcher fs s1).0) [
          | inr refused ↦
              let (live2, running2) = systems.starts_not fs s1 refused in
              let (gone, idle) = systems.deletes fs s2 [] (live2 ∙ live1 ∙ live) in
              inr (
                rw (placed, refused) refl,
                rw (placed, refused, created_points) (inr (inr (inr (inl (refl, gone))))),
              )
          | inl started ↦
              let (live2, running2) = systems.starts fs s1 started in
              inl (
                rw (placed, started) refl,
                rw (placed, started, created_points)
                    (
                      (λ e. absurd (not_empty (sym live ∙ e))),
                      (
                        (λ e. absurd (not_empty (sym (live1 ∙ live) ∙ e))),
                        ((λ e. absurd (not_empty (sym (live2 ∙ live1 ∙ live) ∙ e))), tt),
                      ),
                    ),
              )
        ]
      ]
    where
      not_empty : fs ∷ [] ≢ []
      not_empty e = cc

  -- With no file system at the start, there is a point of mount at which the object knows a file system
  -- while none exists exactly when the file system is created and mount fails.
  pub mount_points-IsDangling :
      (w : WinFspApfs) (prefix : List ℕ) (s : driver.State) (fs : ℕ)
      → systems.live s ≡ []
      → Any (IsDangling fs) (mount_points driver w prefix s)
        ↔ (((driver.create prefix s).0 ≡ some fs) × ((mount_named driver w prefix s).0 ≡ false))
  unfolding mount_points mount_named
  mount_points-IsDangling w prefix s fs live = elim (Option-cases (driver.create prefix s).0) [
    | inl refused ↦ (
      λ any. elim (rw (refused, mount_points) at any) [
        | inl (e, _) ↦ absurd (none-ne-some fs e)
        | inr (inl (e, _)) ↦ absurd (none-ne-some fs e)
        | inr (inr e) ↦ absurd e
      ],
      λ made. absurd (none-ne-some fs (sym refused ∙ made.0)),
    )
    | inr (made_fs, made) ↦
        let s1 = (driver.create prefix s).1 in
        let (live1, running1) = systems.creates prefix s made_fs made in
        let outcome =
          created_points-outcome w made_fs s1 (live1 ∙ ap (λ (l : List ℕ). made_fs ∷ l) live) in
        let only = created_points-KnowsOnly w made_fs s1 in
        (
          λ any. elim (rw (made, mount_points) at any) [
            | inl (e, _) ↦ absurd (none-ne-some fs e)
            | inr found ↦ elim outcome [
              | inl (good, alive) ↦ absurd (
                  All-Any IsLive (IsDangling fs) (λ p a d. a d.1)
                    (created_points driver w made_fs s1) alive found)
              | inr (bad, _) ↦ (
                made
                    ∙ ap some (
                        sym (
                          All-Any (KnowsOnly made_fs) (IsDangling fs) (λ p k d. k fs d.0)
                            (created_points driver w made_fs s1) only found)),
                rw (made, mount_named) bad,
              )
            ]
          ],
          λ refused. elim outcome [
            | inl (good, alive) ↦
                absurd (false≢true (sym (rw (made, mount_named) at refused.1) ∙ good))
            | inr (bad, found) ↦
                rw (made, mount_points)
                  (inr (
                    subst (λ f. Any (IsDangling f) (created_points driver w made_fs s1))
                      (some-injective made_fs fs (sym made ∙ refused.0)) found))
          ],
        )
  ]
