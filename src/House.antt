-- ===== src/House.antt =====
-- internal/house: whom the house page answers (Caller), and its admin area (Admin).
pub mod Caller
pub mod Admin
