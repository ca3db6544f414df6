-- ===== src/Auth.antt =====
-- backend/app/auth: passwords (passwords.py), and users with their sessions (service.py).
pub mod Hex
pub mod Passwords
pub mod Sessions
