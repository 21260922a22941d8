-- ===== src/Frontend.antt =====
-- frontend/src: the parts of the single-page application that keep state or decide something.
pub mod Arrays
pub mod Client
pub mod Drag
pub mod ListSort
pub mod Queries
pub mod Toasts
pub mod NoteEditor
