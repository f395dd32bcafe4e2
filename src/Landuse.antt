-- ===== src/Landuse.antt =====
-- srv/static/game.js: what a parcel is used for.
pub mod Table
pub mod Keys
pub mod Summary
pub mod Water
pub mod Code
