-- ===== src/Regrowth.antt =====
-- srv/static/game.js: what grows back on a parcel, and what that is worth.
pub mod Hash
pub mod Forest
pub mod Field
pub mod Value
