-- ===== src/Disk/Handles.antt =====
-- The reader and the handle that it holds: one while it is open, none while it is closed, and no handle
-- is ever lost.
use wamount.Base.{
  ℕ, ◌∙◌, ap, Option-cases, inl, inr, ◌≡◌, ◌↔◌, refl, arith, Bool, true, false, Option, none, some,
  List, [], ◌∷◌,
}
use wamount.Disk.{Os, DiskReader, close, find_size, open_handle, open_device, open_disk, is_open}

-- Which handles the process holds, and how the calls change that.
pub record Handles (os : Os) : Type 0 where
  pub held : os.State → List ℕ
  pub creates :
      (path : List ℕ) (s : os.State) (h : ℕ)
      → (os.create_file path s).0 ≡ some h
      → held (os.create_file path s).1 ≡ h ∷ held s
  pub creates_none :
      (path : List ℕ) (s : os.State)
      → (os.create_file path s).0 ≡ none
      → held (os.create_file path s).1 ≡ held s
  pub geometry : (h : ℕ) (s : os.State) → held (os.drive_geometry h s).1 ≡ held s
  pub file_size : (h : ℕ) (s : os.State) → held (os.get_file_size h s).1 ≡ held s
  pub closes :
      (h : ℕ) (s : os.State) (rest : List ℕ) → held s ≡ h ∷ rest → held (os.close_handle h s) ≡ rest

abbrev pub handle_list : Option ℕ → List ℕ
handle_list none = []
handle_list (some h) = h ∷ []

-- The process holds the reader's handle and no other, and a reader without one has no size.
pub record IsConsistent (os : Os) (handles : Handles os) (d : DiskReader) (s : os.State)
    : Type 0 where
  pub held : handles.held s ≡ handle_list d.handle
  pub size : d.handle ≡ none → d.disk_size ≡ 0

module _ (os : Os) (handles : Handles os) where
  -- Under the documented effect of the system's calls on the handles that a process holds, closing
  -- a reader whose handle is the only one held leaves it with no handle and the process with none,
  -- and a reader that is closed as it was.
  close-IsConsistent :
      (d : DiskReader) (s : os.State)
      → IsConsistent os handles d s
      → IsConsistent os handles (close os d s).0 (close os d s).1 × ((close os d s).0.handle ≡ none)
  unfolding close
  close-IsConsistent d s c = elim (Option-cases d.handle) [
    | inl e ↦ (rw (e, close) c, rw (e, close) e)
    | inr (h, e) ↦ (
      rw (e, close)
          (record { held = handles.closes h s [] (c.held ∙ ap handle_list e); size = λ _. refl }),
      rw (e, close) refl,
    )
  ]

  held-find_size : (h : ℕ) (s : os.State) → handles.held (find_size os h s).1 ≡ handles.held s
  unfolding find_size
  held-find_size h s =
      ground (arith, handles.geometry h s, handles.file_size h (os.drive_geometry h s).1)

  -- A call of `open` has gone well if its result says whether the reader is open, and the handle is the
  -- only one.
  abbrev pub Opened : Bool × DiskReader × os.State → Type 0
  Opened r = IsConsistent os handles r.1 r.2 × ((r.0 ≡ true) ↔ (is_open r.1 ≡ true))

  refused_open :
      (d : DiskReader) (s : os.State)
      → IsConsistent os handles d s
      → d.handle ≡ none
      → Opened (false, d, s)
  unfolding is_open
  refused_open d s c e = (c, ((λ f. cc), λ t. absurd (ground arith)))

  with_size :
      (d : DiskReader) (h size : ℕ) (s : os.State)
      → handles.held s ≡ h ∷ []
      → Opened (true, record d { handle = some h; disk_size = size }, s)
  unfolding is_open
  with_size d h size s held = (record { held = held; size = λ e. cc }, ((λ _. refl), λ _. refl))

  open_handle-Opened :
      (d : DiskReader) (h : ℕ) (s : os.State)
      → handles.held s ≡ h ∷ []
      → Opened (open_handle os d h s)
  unfolding open_handle
  open_handle-Opened d h s held = elim (Option-cases (find_size os h s).0) [
    | inl unknown ↦
        rw (unknown, open_handle)
          (refused_open (record d { handle = none; disk_size = 0 })
            (os.close_handle h (find_size os h s).1)
            (record { held = handles.closes h _ [] (held-find_size h s ∙ held); size = λ _. refl })
            refl)
    | inr (size, known) ↦
        rw (known, open_handle)
          (with_size d h size (find_size os h s).1 (held-find_size h s ∙ held))
  ]

  -- `open` from the call of CreateFileA on, for a reader that is closed.
  open_device-Opened :
      (d : DiskReader) (s : os.State)
      → IsConsistent os handles d s
      → d.handle ≡ none
      → Opened (open_device os d s)
  unfolding open_device
  open_device-Opened d s c e = elim (Option-cases (os.create_file d.device_path s).0) [
    | inl failed ↦
        rw (failed, open_device)
          (refused_open (record d { handle = none }) (os.create_file d.device_path s).1
            (record {
              held = handles.creates_none d.device_path s failed ∙ c.held ∙ ap handle_list e;
              size = λ _. c.size e;
            })
            refl)
    | inr (h, made) ↦
        rw (made, open_device)
          (open_handle-Opened d h (os.create_file d.device_path s).1 (
            handles.creates d.device_path s h made
            ∙ ap (λ (hs : List ℕ). h ∷ hs) (c.held ∙ ap handle_list e)))
  ]

  -- Under the documented effect of the system's calls on the handles that a process holds, opening
  -- a reader whose handle is the only one held reports success exactly when the reader is open
  -- afterwards, and again its handle is the only one held, or none is.
  pub open_disk-Opened :
      (d : DiskReader) (path : List ℕ) (s : os.State)
      → IsConsistent os handles d s
      → Opened (open_disk os d path s)
  unfolding open_disk
  open_disk-Opened d path s c =
      let (consistent, none_left) = close-IsConsistent d s c in
      open_device-Opened (record (close os d s).0 { device_path = path }) (close os d s).1
        (record { held = consistent.held; size = consistent.size }) none_left
