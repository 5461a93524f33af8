-- ===== src/Winfsp/Contexts.antt =====
-- The contexts that `Open` allocates and `Close` frees, and the callbacks that reach one through the
-- pointer that the driver passes. The heap is what `new` has made and `delete` has not freed; where a
-- new context is put is a parameter.
pub mod Lifetime
pub mod Handles
use wamount.Base.{
  ℕ, ◌==◌, Bool, true, false, Option, none, some, List, [], ◌∷◌, Result, done, fault, ◌>>=◌,
  if◌then◌else◌,
}
use wamount.Bytes.{Bytes}
use wamount.Blocks.{Blocks}
use wamount.Volume.{Volume, FileInfo}
use wamount.Winfsp.{FileContext, FspFileInfo}
use wamount.Winfsp.Callbacks.{Status, open_file, read, file_info, list_directory}

abbrev pub Heap : Type 0
Heap = List (ℕ × FileContext)

-- The context behind a pointer, `none` where there is none.
abbrev pub context_at : Heap → ℕ → Option FileContext
context_at [] p = none
context_at ((q, context) ∷ heap) p = if q == p then some context else context_at heap p

abbrev pub without : Heap → ℕ → Heap
without [] p = []
without ((q, context) ∷ heap) p = elim (q == p) [
  | true ↦ heap
  | false ↦ (q, context) ∷ without heap p
]

-- `delete context`: nothing for a null pointer, and no meaning for one that is not allocated.
unfoldable pub close_file : Heap → ℕ → Result Heap
close_file heap p =
    if p == 0
    then done heap
    else elim (context_at heap p) [ none ↦ fault | some context ↦ done (without heap p) ]

-- A callback that reads `*context`.
unfoldable pub with_context {ℓ} : {A : Type ℓ} → Heap → ℕ → (FileContext → Result A) → Result A
with_context heap p callback = elim (context_at heap p) [
  | none ↦ fault
  | some context ↦ callback context
]

-- What the driver asks for. `info` is what stands on the stack before a lookup.
pub data Request : Type 0 where
  open_request : FileInfo → List ℕ → Request
  close_request : ℕ → Request
  read_request : ℕ → ℕ → ℕ → Request
  info_request : FileInfo → ℕ → Request
  list_request : ℕ → Request

module _ (allocate : Heap → ℕ) (volume : Volume) (container : Option Blocks) where
  -- The heap after `Open`, the status, and the pointer that is given to the driver.
  unfoldable pub open_at : Heap → FileInfo → List ℕ → Result (Heap × Status × Option ℕ)
  open_at heap info path = do
    (status, opened) ← open_file volume container info path
    elim opened [
      | none ↦ done (heap, status, none)
      | some (context, told) ↦ done ((allocate heap, context) ∷ heap, status, some (allocate heap))
    ]

  unfoldable pub read_at : Heap → ℕ → ℕ → ℕ → Result (Status × Option (ℕ × Bytes))
  unfolding with_context
  read_at heap p offset length =
      with_context heap p λ context. read volume container context offset length

  unfoldable pub info_at : Heap → FileInfo → ℕ → Result (Status × Option FspFileInfo)
  unfolding with_context
  info_at heap info p = with_context heap p (file_info volume container info)

  module _ (Listing : Type 0) (add : FspFileInfo → Listing → Bool × Listing)
      (converts : List ℕ → Bool) (listing : Listing) where
    unfoldable pub list_at : Heap → ℕ → Result (Option (Status × Listing))
    unfolding with_context
    list_at heap p =
        with_context heap p
          λ context. list_directory volume container Listing add converts context listing

    -- One request: the heap after it, and the pointer that the driver is given, if any.
    unfoldable pub perform : Heap → Request → Result (Heap × Option ℕ)
    unfolding open_at read_at info_at list_at close_file
    perform heap (Request.open_request info path) = open_at heap info path >>= λ r. done (r.0, r.2)
    perform heap (Request.close_request p) = close_file heap p >>= λ heap'. done (heap', none)
    perform heap (Request.read_request p offset length) =
        read_at heap p offset length >>= λ r. done (heap, none)
    perform heap (Request.info_request info p) = info_at heap info p >>= λ r. done (heap, none)
    perform heap (Request.list_request p) = list_at heap p >>= λ r. done (heap, none)
