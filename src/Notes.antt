-- ===== src/Notes.antt =====
-- backend/src/notes/notes.service.ts: `NotesService`: the query of a list (Query), the checks of tags and
-- links (Links), and the methods (Service).
pub mod Query
pub mod Links
pub mod Service
pub mod Foreign
pub mod Listing
pub mod Wanted
pub mod Checks
