-- ===== src/Winfsp/Mounting.antt =====
-- `mount` and `unmount`: the file systems of the driver, and the one that the object knows.
use mathlib.Core.Bool.{false≢true}
use wamount.Base.{
  ℕ, ◌≡◌, ◌↔◌, ◌∙◌, refl, sym, ap, subst, arith, Bool, true, false, Option, none, some, List, [],
  ◌∷◌, Result, done, Option-cases, Bool-cases, Result-cases, done-injective, inl, inr,
}
use wamount.Volume.{Volume, get_volume_name}
use wamount.Winfsp.{Driver, WinFspApfs, mount_created, mount_named, mount, unmount}

-- Which file systems exist, and which of them have a dispatcher that runs.
pub record Systems (driver : Driver) : Type 0 where
  pub live : driver.State → List ℕ
  pub running : driver.State → List ℕ
  pub creates :
      (prefix : List ℕ) (s : driver.State) (fs : ℕ)
      → (driver.create prefix s).0 ≡ some fs
      → (live (driver.create prefix s).1 ≡ fs ∷ live s)
        × (running (driver.create prefix s).1 ≡ running s)
  pub creates_none :
      (prefix : List ℕ) (s : driver.State)
      → (driver.create prefix s).0 ≡ none
      → (live (driver.create prefix s).1 ≡ live s)
        × (running (driver.create prefix s).1 ≡ running s)
  pub places :
      (fs : ℕ) (mount_point : List ℕ) (s : driver.State)
      → (live (driver.set_mount_point fs mount_point s).1 ≡ live s)
        × (running (driver.set_mount_point fs mount_point s).1 ≡ running s)
  pub starts :
      (fs : ℕ) (s : driver.State)
      → (driver.start_dispatcher fs s).0 ≡ true
      → (live (driver.start_dispatcher fs s).1 ≡ live s)
        × (running (driver.start_dispatcher fs s).1 ≡ fs ∷ running s)
  pub starts_not :
      (fs : ℕ) (s : driver.State)
      → (driver.start_dispatcher fs s).0 ≡ false
      → (live (driver.start_dispatcher fs s).1 ≡ live s)
        × (running (driver.start_dispatcher fs s).1 ≡ running s)
  pub stops :
      (fs : ℕ) (s : driver.State) (rest : List ℕ)
      → running s ≡ fs ∷ rest
      → (live (driver.stop_dispatcher fs s) ≡ live s)
        × (running (driver.stop_dispatcher fs s) ≡ rest)
  pub deletes :
      (fs : ℕ) (s : driver.State) (rest : List ℕ)
      → live s ≡ fs ∷ rest
      → (live (driver.delete fs s) ≡ rest) × (running (driver.delete fs s) ≡ running s)

abbrev pub system_list : Option ℕ → List ℕ
system_list none = []
system_list (some fs) = fs ∷ []

-- The file system that the object knows is the only one, and it runs.
pub record IsMatched (driver : Driver) (systems : Systems driver) (w : WinFspApfs)
    (s : driver.State) : Type 0 where
  pub live : systems.live s ≡ system_list w.file_system
  pub running : systems.running s ≡ system_list w.file_system

abbrev pub is_mounted : WinFspApfs → Bool
is_mounted w = elim w.file_system [ none ↦ false | some fs ↦ true ]

module _ (driver : Driver) (systems : Systems driver) where
  -- The result says whether there is a file system afterwards, and it is the only one.
  abbrev pub Settles : Bool × WinFspApfs × driver.State → Type 0
  Settles r = IsMatched driver systems r.1 r.2 × (is_mounted r.1 ≡ r.0)

  nothing_left :
      (w : WinFspApfs) (s : driver.State)
      → systems.live s ≡ []
      → systems.running s ≡ []
      → Settles (false, record w { file_system = none }, s)
  nothing_left w s live running = (record { live = live; running = running }, refl)

  one_left :
      (w : WinFspApfs) (fs : ℕ) (s : driver.State)
      → systems.live s ≡ fs ∷ []
      → systems.running s ≡ fs ∷ []
      → Settles (true, record w { file_system = some fs }, s)
  one_left w fs s live running = (record { live = live; running = running }, refl)

  mount_created-Settles :
      (w : WinFspApfs) (fs : ℕ) (s : driver.State)
      → systems.live s ≡ fs ∷ []
      → systems.running s ≡ []
      → Settles (mount_created driver w fs s)
  unfolding mount_created
  mount_created-Settles w fs s live running =
      let (live1, running1) = systems.places fs w.mount_point s in
      let s1 = (driver.set_mount_point fs w.mount_point s).1 in
      elim (Bool-cases (driver.set_mount_point fs w.mount_point s).0) [
        | inr not_placed ↦
            let (live2, running2) = systems.deletes fs s1 [] (live1 ∙ live) in
            rw not_placed
              (nothing_left w (driver.delete fs s1) live2 (running2 ∙ running1 ∙ running))
        | inl placed ↦ elim (Bool-cases (driver.start_dispatcher fs s1).0) [
          | inr not_started ↦
              let s2 = (driver.start_dispatcher fs s1).1 in
              let (live2, running2) = systems.starts_not fs s1 not_started in
              let (live3, running3) = systems.deletes fs s2 [] (live2 ∙ live1 ∙ live) in
              rw (placed, not_started)
                (nothing_left w (driver.delete fs s2) live3
                  (running3 ∙ running2 ∙ running1 ∙ running))
          | inl started ↦
              let s2 = (driver.start_dispatcher fs s1).1 in
              let (live2, running2) = systems.starts fs s1 started in
              rw (placed, started)
                (one_left w fs s2 (live2 ∙ live1 ∙ live)
                  (running2 ∙ ap (λ (l : List ℕ). fs ∷ l) (running1 ∙ running)))
        ]
      ]

  mount_named-Settles :
      (w : WinFspApfs) (prefix : List ℕ) (s : driver.State)
      → systems.live s ≡ []
      → systems.running s ≡ []
      → Settles (mount_named driver w prefix s)
  unfolding mount_named
  mount_named-Settles w prefix s live running =
      let s1 = (driver.create prefix s).1 in
      elim (Option-cases (driver.create prefix s).0) [
        | inl refused ↦
            let (live1, running1) = systems.creates_none prefix s refused in
            rw (refused, mount_named) (nothing_left w s1 (live1 ∙ live) (running1 ∙ running))
        | inr (fs, created) ↦
            let (live1, running1) = systems.creates prefix s fs created in
            rw (created, mount_named)
              (mount_created-Settles w fs s1 (live1 ∙ ap (λ (l : List ℕ). fs ∷ l) live)
                (running1 ∙ running))
      ]

  some_same :
      (a b : Bool × WinFspApfs × driver.State)
      → ◌≡◌ {A = Result (Option (Bool × WinFspApfs × driver.State))} (done (some a)) (done (some b))
      → a ≡ b
  some_same a b e = ap (λ o. elim o [ none ↦ a | some r ↦ r ]) (done-injective e)

  mount-value :
      (prefix_of : List ℕ → Option (List ℕ)) (volume : Volume) (w : WinFspApfs)
      (mount_point : List ℕ) (s : driver.State) (name prefix : List ℕ)
      → w.file_system ≡ none
      → get_volume_name volume ≡ done name
      → prefix_of name ≡ some prefix
      → mount driver prefix_of volume w mount_point s
        ≡ done (some (mount_named driver (record w { mount_point = mount_point }) prefix s))
  unfolding mount
  mount-value prefix_of volume w mount_point s name prefix e p q = ground (arith, e, p, q)

  mount-named :
      (prefix_of : List ℕ → Option (List ℕ)) (volume : Volume) (w : WinFspApfs)
      (mount_point : List ℕ) (s : driver.State) (r : Bool × WinFspApfs × driver.State)
      → w.file_system ≡ none
      → mount driver prefix_of volume w mount_point s ≡ done (some r)
      → (prefix : List ℕ) × (mount_named driver (record w { mount_point = mount_point }) prefix s
          ≡ r)
  unfolding mount
  mount-named prefix_of volume w mount_point s r e run =
      elim (Result-cases (get_volume_name volume)) [
        | inl p ↦ absurd (ground (arith, e, p, run))
        | inr (name, p) ↦ elim (Option-cases (prefix_of name)) [
          | inl q ↦ absurd (ground (arith, e, p, q, run))
          | inr (prefix, q) ↦ (
            prefix,
            some_same _ r
                (sym (mount-value prefix_of volume w mount_point s name prefix e p q) ∙ run),
          )
        ]
      ]

  mount-mounted :
      (prefix_of : List ℕ → Option (List ℕ)) (volume : Volume) (w : WinFspApfs)
      (mount_point : List ℕ) (s : driver.State) (fs : ℕ)
      → w.file_system ≡ some fs
      → mount driver prefix_of volume w mount_point s ≡ done (some (false, w, s))
  unfolding mount
  mount-mounted prefix_of volume w mount_point s fs e = ground (arith, e)

  -- Under the documented effect of the driver's calls on the file systems that exist and run, a
  -- call of mount that returns, on an object that knows the only file system and all that runs,
  -- keeps it so on every path of failure, and it returns true exactly when there was no file system
  -- before and there is one afterwards.
  pub mount-IsMatched :
      (prefix_of : List ℕ → Option (List ℕ)) (volume : Volume) (w : WinFspApfs)
      (mount_point : List ℕ) (s : driver.State) (r : Bool × WinFspApfs × driver.State)
      → IsMatched driver systems w s
      → mount driver prefix_of volume w mount_point s ≡ done (some r)
      → IsMatched driver systems r.1 r.2
        × ((r.0 ≡ true) ↔ ((is_mounted w ≡ false) × (is_mounted r.1 ≡ true)))
  mount-IsMatched prefix_of volume w mount_point s r c run = elim (Option-cases w.file_system) [
    | inl e ↦
        let (prefix, same) = mount-named prefix_of volume w mount_point s r e run in
        let (matched, told) = subst Settles same (
          mount_named-Settles (record w { mount_point = mount_point }) prefix s
            (c.live ∙ ap system_list e) (c.running ∙ ap system_list e)) in
        (matched, (λ good. (ground (arith, e), told ∙ good), λ both. sym told ∙ both.1))
    | inr (fs, e) ↦
        let same =
          some_same (false, w, s) r
            (sym (mount-mounted prefix_of volume w mount_point s fs e) ∙ run) in
        (
          subst (λ (x : Bool × WinFspApfs × driver.State). IsMatched driver systems x.1 x.2) same c,
          (
            (λ good.
                absurd
                  (false≢true (ap (λ (x : Bool × WinFspApfs × driver.State). x.0) same ∙ good))),
            (λ both. absurd (ground (arith, e, both.0))),
          ),
        )
  ]

  -- Under the documented effect of the driver's calls, unmounting an object that knows the only
  -- file system and all that runs leaves no file system, none that runs, and an object that knows
  -- none.
  pub unmount-IsMatched :
      (w : WinFspApfs) (s : driver.State)
      → IsMatched driver systems w s
      → let r = unmount driver w s in
        (systems.live r.1 ≡ []) × (systems.running r.1 ≡ []) × (r.0.file_system ≡ none)
  unfolding unmount
  unmount-IsMatched w s c = elim (Option-cases w.file_system) [
    | inl e ↦ (
      rw (e, unmount) (c.live ∙ ap system_list e),
      rw (e, unmount) (c.running ∙ ap system_list e),
      rw (e, unmount) e,
    )
    | inr (fs, e) ↦
        let (live1, running1) = systems.stops fs s [] (c.running ∙ ap system_list e) in
        let (live2, running2) =
          systems.deletes fs (driver.stop_dispatcher fs s) [] (live1 ∙ c.live ∙ ap system_list e) in
        (rw (e, unmount) live2, rw (e, unmount) (running2 ∙ running1), rw (e, unmount) refl)
  ]
