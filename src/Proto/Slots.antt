-- ===== src/Proto/Slots.antt =====
-- The slots that `#[pyproto]` fills.
pub mod Table
pub mod NumberEffects
pub mod OtherEffects
pub mod Local
pub mod Number
pub mod Assignment
