-- ===== src/Columns.antt =====
-- backend/src/columns/columns.service.ts: `ColumnsService`: the columns of a board with their cards
-- (View), and the methods (Service).
pub mod View
pub mod Service
pub mod Renumber
pub mod Moves
pub mod MoveAll
pub mod Numbering
pub mod Sorting
pub mod Removal
pub mod Refusal
