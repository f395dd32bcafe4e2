-- ===== src/Tests.antt =====
-- Concrete inputs for the theorems, by the part of the program.
pub mod Cadastre
pub mod Landuse
pub mod Regrowth
pub mod Claims
pub mod Loading
pub mod Queues
pub mod Map
pub mod Messages
pub mod Actions
pub mod Search
pub mod Pace
pub mod Parcels
