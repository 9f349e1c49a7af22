-- ===== src/Auth.antt =====
-- apps/ui/src/auth and apps/ui/src/pages/LoginPage.tsx: who is signed in, and where the router sends.
pub mod Session
pub mod Roles
pub mod Login
