-- ===== src/Tests/Paths.antt =====
-- Paths of a volume.
use wamount.Base.{ℕ, ◌≡◌, arith, List, [], ◌∷◌}
use wamount.Btree
use wamount.Volume.Path.{components}
use wamount.Volume.Path.Components.{components-join, join}

-- "a" and "b"
abbrev a : List ℕ
a = 97 ∷ []

abbrev b : List ℕ
b = 98 ∷ []

components-join_example : components (join (a ∷ b ∷ [])) ≡ a ∷ b ∷ []
components-join_example = components-join (a ∷ b ∷ []) (
  ((λ e. cc), ((λ e. absurd (omega (arith, e))), tt)),
  (((λ e. cc), ((λ e. absurd (omega (arith, e))), tt)), tt),
)
