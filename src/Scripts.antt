-- ===== src/Scripts.antt =====
-- backend/src/scripts: the command line tools.
pub mod CreateAdmin
