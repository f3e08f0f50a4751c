-- ===== src/Ui/Node.antt =====
-- The tree that a component shows, and what can be read off it.
use core_banking_system.Prelude.{ℕ, ◌+◌, String, Bool, List, [], ◌∷◌, ◌++◌, Option, none, some}
use core_banking_system.Prelude.Int.{ℤ}
use core_banking_system.Enums.Tone.{Tone}

-- Where a link or a navigation leads: the segments of the template literal, `/a/${b}` as a ∷ b ∷ [].
abbrev pub Target : Type 0
Target = List String

pub data Node : Type 0 where
  nothing : Node
  text : String → Node
  money : ℤ → Node
  amount : ℤ → Bool → Node
  badge : String → Tone → Node
  copy_id : String → Node
  hint : String → Node
  skeleton : Node
  problem : String → Bool → Node
  link : Target → Node → Node
  action : String → Node
  row : Option Target → Node → Node
  cell : Node → Node
  also : Node → Node → Node

infixr 30 ◌▹◌
-- One thing after another.
abbrev pub ◌▹◌ : Node → Node → Node
a ▹ b = also a b

-- `xs.map(render)`.
unfoldable pub each {ℓ} : {A : Type ℓ} → (A → Node) → List A → Node
each render [] = nothing
each render (x ∷ xs) = render x ▹ each render xs

-- The targets of the links and of the clickable rows.
unfoldable pub targets : Node → List Target
targets (link t n) = t ∷ targets n
targets (row (some t) n) = t ∷ targets n
targets (row none n) = targets n
targets (cell n) = targets n
targets (also a b) = targets a ++ targets b
targets _ = []

-- How many cells a part has, outside the rows in it.
unfoldable pub cells : Node → ℕ
cells (cell n) = 1
cells (also a b) = cells a + cells b
cells _ = 0

-- The number of cells of each row.
unfoldable pub row_widths : Node → List ℕ
unfolding cells
row_widths (row t n) = cells n ∷ []
row_widths (link t n) = row_widths n
row_widths (also a b) = row_widths a ++ row_widths b
row_widths _ = []
