-- ===== src/Store.antt =====
-- The database that the services share: its tables (Entities), the repositories through which the
-- services reach it (Repository) with what the ORM documents of them (Repository/Documented), the
-- errors and the state that a service method passes on (Action), and what a deletion takes along
-- (Cascade), and the rows that a foreign key names (Relations).
pub mod Entities
pub mod Repository
pub mod Action
pub mod Cascade
pub mod Relations
pub mod Distinct
pub mod Bulk
pub mod Laws
pub mod Keyed
pub mod SaveAll
pub mod Rooted
