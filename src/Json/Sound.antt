-- ===== src/Json/Sound.antt =====
-- What `from_dict` gives is of the type that was asked for.
pub mod Parts
pub mod Filled
pub mod OfType
pub mod Chosen
