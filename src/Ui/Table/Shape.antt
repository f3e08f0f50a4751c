-- ===== src/Ui/Table/Shape.antt =====
-- The shape of a table's body, in each of its states.
use core_banking_system.Prelude.{
  ◌≡◌, refl, ℕ, zero, String, Bool, true, false, Option, none, some, arith, List, [], ◌∷◌, map,
  length,
}
use core_banking_system.Ui.Node.{Node, text, cell, Target, each, cells, row_widths}
use core_banking_system.Ui.Parts.{hint_of}
use core_banking_system.Ui.Table.{
  Column, header_row, skeleton_row, item_row, table_body, data_table,
}

-- The number of cells of each row: three full rows while loading, one cell across the table where there is
-- nothing to show, a full row for each item otherwise.
unfoldable pub widths : {A : Type 0} → List (Column A) → Option (List A) → Bool → List ℕ
widths columns items true = length columns ∷ length columns ∷ length columns ∷ []
widths columns none false = 1 ∷ []
widths columns (some []) false = 1 ∷ []
widths columns (some (x ∷ xs)) false = map (λ _. length columns) (x ∷ xs)

cells-each :
    {A : Type 0} (show : A → Node) (xs : List A) → cells (each (λ x. cell (show x)) xs) ≡ length xs
unfolding cells each
cells-each show [] = refl
cells-each show (x ∷ xs) = let e = cells-each show xs in omega arith

row_widths-each :
    {A : Type 0} (show : A → Node) (n : ℕ) (xs : List A)
    → ((x : A) → row_widths (show x) ≡ n ∷ [])
    → row_widths (each show xs) ≡ map (λ _. n) xs
unfolding row_widths each
row_widths-each show n [] h = refl
row_widths-each show n (x ∷ xs) h = rw (h x, row_widths-each show n xs h) refl

module _ {A : Type 0} (columns : List (Column A)) where
  row_widths-item :
      (click : Option (A → Target)) (x : A)
      → row_widths (item_row columns click x) ≡ length columns ∷ []
  unfolding item_row row_widths
  row_widths-item click x = rw (cells-each (λ c. c.render x) columns) refl

  row_widths-skeleton : row_widths (skeleton_row columns) ≡ length columns ∷ []
  unfolding skeleton_row row_widths
  row_widths-skeleton = rw (cells-each (λ _. Node.skeleton) columns) refl

no_rows-hint : (o : Option String) → row_widths (hint_of o) ≡ []
unfolding row_widths
no_rows-hint none = refl
no_rows-hint (some h) = refl

no_rows-header : {A : Type 0} (columns : List (Column A)) → row_widths (header_row columns) ≡ []
unfolding header_row row_widths each
no_rows-header [] = refl
no_rows-header (c ∷ cs) = rw (no_rows-hint c.hint_id, no_rows-header cs) refl

-- A table has, in each of its states, the rows that the state asks for, and each row of items or of
-- placeholders has one cell for each column.
pub row_widths-data_table :
    {A : Type 0} (columns : List (Column A)) (items : Option (List A)) (is_loading : Bool)
    (empty : String) (click : Option (A → Target))
    → row_widths (data_table columns items is_loading (text empty) click)
      ≡ widths columns items is_loading
unfolding data_table table_body row_widths widths
row_widths-data_table columns items true empty click =
    rw
      (
        no_rows-header columns,
        row_widths-each (λ _. skeleton_row columns) (length columns) (zero ∷ 1 ∷ 2 ∷ [])
            (λ _. row_widths-skeleton columns),
      )
      refl
row_widths-data_table columns none false empty click = rw (no_rows-header columns) refl
row_widths-data_table columns (some []) false empty click = rw (no_rows-header columns) refl
row_widths-data_table columns (some (x ∷ xs)) false empty click =
    rw
      (
        no_rows-header columns,
        row_widths-each (item_row columns click) (length columns) (x ∷ xs)
            (row_widths-item columns click),
      )
      refl
