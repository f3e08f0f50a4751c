-- ===== src/Ui/Table.antt =====
-- web/src/components/data-table.tsx: the table of every list screen.
pub mod Shape
use core_banking_system.Prelude.{
  ℕ, zero, suc, String, Bool, Option, none, some, List, [], ◌∷◌, map, if◌then◌else◌,
}
use core_banking_system.Ui.Node.{Node, nothing, text, skeleton, row, cell, Target, ◌▹◌, each}
use core_banking_system.Ui.Parts.{hint_of}

-- A column: its header with an optional hint, and what it shows of a row. The columns of the source all
-- have a renderer.
pub record Column (A : Type 0) : Type 0 where
  pub header : String
  pub hint_id : Option String
  pub render : A → Node

abbrev pub column : {A : Type 0} → String → (A → Node) → Column A
column header render = record { header = header; hint_id = none; render = render }

abbrev pub hinted : {A : Type 0} → String → String → (A → Node) → Column A
hinted header hint_id render = record { header = header; hint_id = some hint_id; render = render }

module _ {A : Type 0} where
  unfoldable pub header_row : List (Column A) → Node
  header_row columns = each (λ c. text c.header ▹ hint_of c.hint_id) columns

  unfoldable pub skeleton_row : List (Column A) → Node
  skeleton_row columns = row none (each (λ _. cell skeleton) columns)

  unfoldable pub item_row : List (Column A) → Option (A → Target) → A → Node
  item_row columns on_row_click x =
      row (elim on_row_click [ none ↦ none | some f ↦ some (f x) ])
        (each (λ c. cell (c.render x)) columns)

  -- The body: three skeleton rows while loading, one cell with the empty text, or the rows.
  unfoldable pub table_body :
      List (Column A) → Option (List A) → Bool → Node → Option (A → Target) → Node
  unfolding skeleton_row item_row
  table_body columns items is_loading empty on_row_click =
      if is_loading then each (λ _. skeleton_row columns) (zero ∷ 1 ∷ 2 ∷ []) else elim items [
        | none ↦ row none (cell empty)
        | some [] ↦ row none (cell empty)
        | some (x ∷ xs) ↦ each (item_row columns on_row_click) (x ∷ xs)
      ]

  unfoldable pub data_table :
      List (Column A) → Option (List A) → Bool → Node → Option (A → Target) → Node
  unfolding header_row table_body
  data_table columns items is_loading empty on_row_click =
      header_row columns ▹ table_body columns items is_loading empty on_row_click
