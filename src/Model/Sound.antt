-- ===== src/Model/Sound.antt =====
-- src/model.rs: the validations, said without their loops.
pub mod Locations
pub mod Events
pub mod References
pub mod Quests
