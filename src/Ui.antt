-- ===== src/Ui.antt =====
-- What a component of web/src/components shows: a tree that keeps texts, values, links and actions, and
-- leaves out class names, icons and the elements that only arrange.
pub mod Node
pub mod Dates
pub mod Parts
pub mod Hints
pub mod Table
pub mod Combobox
