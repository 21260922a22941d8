-- ===== src/Auth.antt =====
-- backend/src/auth: the session and what reads it (Session), and `AuthService` (Service).
pub mod Session
pub mod Service
pub mod RoundTrip
pub mod Guard
