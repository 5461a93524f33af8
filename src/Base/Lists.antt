-- ===== src/Base/Lists.antt =====
-- Lists: a last item, a predicate on all items, on some item, or on an item and the one that follows it, and the
-- map that leaves items out.
use Prim.Native.Nat.{ℕ, zero, suc, ◌≤◌, ◌<◌}
use mathlib.Core.Path.{◌≡◌, refl, ap}
use mathlib.Core.Logic.{◌≢◌, ◌⊎◌, inl, inr}
use native.Mathlib.Omega.{arith}
use mathlib.Core.List.{List, [], ◌∷◌, ◌++◌, map}
use mathlib.Core.Option.{Option, none, some}

-- The last item of a list, or the one that is given where it has none.
abbrev pub last {ℓ} : {A : Type ℓ} → A → List A → A
last a [] = a
last a (x ∷ xs) = last x xs

pub last-map {ℓ κ} :
    {A : Type ℓ} {B : Type κ} (g : A → B) (a : A) (xs : List A)
    → last (g a) (map g xs) ≡ g (last a xs)
last-map g a [] = refl
last-map g a (x ∷ xs) = last-map g x xs

abbrev pub All {ℓ κ} : {A : Type ℓ} → (A → Type κ) → List A → Type κ
All P [] = Unit
All P (x ∷ xs) = P x × All P xs

pub All-append {ℓ κ} :
    {A : Type ℓ} (P : A → Type κ) (xs ys : List A) → All P xs → All P ys → All P (xs ++ ys)
All-append P [] ys p q = q
All-append P (x ∷ xs) ys p q = (p.0, All-append P xs ys p.1 q)

abbrev pub filter_map {ℓ κ} : {A : Type ℓ} {B : Type κ} → (A → Option B) → List A → List B
filter_map f [] = []
filter_map f (x ∷ xs) = elim (f x) [ none ↦ filter_map f xs | some y ↦ y ∷ filter_map f xs ]

module _ {ℓ} {A : Type ℓ} where
  abbrev pub length : List A → ℕ
  length [] = 0
  length (x ∷ xs) = suc (length xs)

  abbrev pub get_or : List A → ℕ → A → A
  get_or [] i d = d
  get_or (x ∷ xs) zero d = x
  get_or (x ∷ xs) (suc i) d = get_or xs i d

  -- A write out of bounds changes nothing.
  abbrev pub set : List A → ℕ → A → List A
  set [] i v = []
  set (x ∷ xs) zero v = v ∷ xs
  set (x ∷ xs) (suc i) v = x ∷ set xs i v

  -- The list with as many items `d` behind it as make `n` items; it is never shortened.
  abbrev pub pad : List A → ℕ → A → List A
  pad [] zero d = []
  pad [] (suc n) d = d ∷ pad [] n d
  pad (x ∷ xs) zero d = x ∷ xs
  pad (x ∷ xs) (suc n) d = x ∷ pad xs n d

  pub get_or-past : (xs : List A) (i : ℕ) (d : A) → length xs ≤ i → get_or xs i d ≡ d
  get_or-past [] i d h = refl
  get_or-past (x ∷ xs) zero d h = absurd (omega arith)
  get_or-past (x ∷ xs) (suc i) d h = get_or-past xs i d (omega arith)

  pub get_or-pad : (xs : List A) (n i : ℕ) (d : A) → get_or (pad xs n d) i d ≡ get_or xs i d
  get_or-pad [] zero i d = refl
  get_or-pad [] (suc n) zero d = refl
  get_or-pad [] (suc n) (suc i) d = get_or-pad [] n i d
  get_or-pad (x ∷ xs) zero i d = refl
  get_or-pad (x ∷ xs) (suc n) zero d = refl
  get_or-pad (x ∷ xs) (suc n) (suc i) d = get_or-pad xs n i d

  pub length-pad : (xs : List A) (n : ℕ) (d : A) → n ≤ length (pad xs n d)
  length-pad [] zero d = omega arith
  length-pad [] (suc n) d = omega (arith, length-pad [] n d)
  length-pad (x ∷ xs) zero d = omega arith
  length-pad (x ∷ xs) (suc n) d = omega (arith, length-pad xs n d)

  pub get_or-set : (xs : List A) (i : ℕ) (v d : A) → i < length xs → get_or (set xs i v) i d ≡ v
  get_or-set [] i v d h = absurd (omega arith)
  get_or-set (x ∷ xs) zero v d h = refl
  get_or-set (x ∷ xs) (suc i) v d h = get_or-set xs i v d (omega arith)

  pub get_or-set_ne :
      (xs : List A) (i j : ℕ) (v d : A) → i ≢ j → get_or (set xs i v) j d ≡ get_or xs j d
  get_or-set_ne [] i j v d h = refl
  get_or-set_ne (x ∷ xs) zero zero v d h = absurd (h refl)
  get_or-set_ne (x ∷ xs) zero (suc j) v d h = refl
  get_or-set_ne (x ∷ xs) (suc i) zero v d h = refl
  get_or-set_ne (x ∷ xs) (suc i) (suc j) v d h = get_or-set_ne xs i j v d (λ e. h (ap suc e))

-- Some item of a list.
abbrev pub Any {ℓ} : {A : Type ℓ} → (A → Type 0) → List A → Type 0
Any P [] = ⊥
Any P (x ∷ xs) = P x ⊎ Any P xs

pub All-Any {ℓ κ} :
    {A : Type ℓ} {C : Type κ} (P Q : A → Type 0)
    → ((x : A) → P x → Q x → C)
    → (xs : List A) → All P xs
    → Any Q xs
    → C
All-Any P Q f [] all any = absurd any
All-Any P Q f (x ∷ xs) all (inl q) = f x all.0 q
All-Any P Q f (x ∷ xs) all (inr any) = All-Any P Q f xs all.1 any

pub Any-map {ℓ κ} :
    {A : Type ℓ} {B : Type κ} (P : A → Type 0) (Q : B → Type 0) (g : A → B)
    → ((x : A) → P x → Q (g x))
    → (xs : List A) → Any P xs
    → Any Q (map g xs)
Any-map P Q g f [] any = absurd any
Any-map P Q g f (x ∷ xs) (inl p) = inl (f x p)
Any-map P Q g f (x ∷ xs) (inr any) = inr (Any-map P Q g f xs any)

pub map-Any {ℓ κ} :
    {A : Type ℓ} {B : Type κ} (P : A → Type 0) (Q : B → Type 0) (g : A → B)
    → ((x : A) → Q (g x) → P x)
    → (xs : List A) → Any Q (map g xs)
    → Any P xs
map-Any P Q g f [] any = absurd any
map-Any P Q g f (x ∷ xs) (inl q) = inl (f x q)
map-Any P Q g f (x ∷ xs) (inr any) = inr (map-Any P Q g f xs any)

-- The last item has the property, and every other has it or is related to the one that follows it.
abbrev pub IsCovered {ℓ κ} : {A : Type ℓ} → (A → Type κ) → (A → A → Type κ) → List A → Type κ
IsCovered P R [] = Unit
IsCovered P R (x ∷ []) = P x
IsCovered P R (x ∷ y ∷ xs) = (P x ⊎ R x y) × IsCovered P R (y ∷ xs)

pub IsCovered-cons {ℓ κ} :
    {A : Type ℓ} (P : A → Type κ) (R : A → A → Type κ) (x : A) (xs : List A)
    → P x
    → IsCovered P R xs
    → IsCovered P R (x ∷ xs)
IsCovered-cons P R x [] p covered = p
IsCovered-cons P R x (y ∷ xs) p covered = (inl p, covered)

pub IsCovered-map {ℓ κ μ ν} :
    {A : Type ℓ} {B : Type κ} (P : A → Type μ) (R : A → A → Type μ) (P' : B → Type ν)
    (R' : B → B → Type ν) (g : A → B)
    → ((x : A) → P x → P' (g x))
    → ((x y : A) → R x y → R' (g x) (g y))
    → (xs : List A) → IsCovered P R xs
    → IsCovered P' R' (map g xs)
IsCovered-map P R P' R' g f h [] covered = tt
IsCovered-map P R P' R' g f h (x ∷ []) covered = f x covered
IsCovered-map P R P' R' g f h (x ∷ y ∷ xs) (inl p, covered) =
    (inl (f x p), IsCovered-map P R P' R' g f h (y ∷ xs) covered)
IsCovered-map P R P' R' g f h (x ∷ y ∷ xs) (inr r, covered) =
    (inr (h x y r), IsCovered-map P R P' R' g f h (y ∷ xs) covered)
