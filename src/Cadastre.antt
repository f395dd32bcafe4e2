-- ===== src/Cadastre.antt =====
-- srv/static/game.js: the cadastre as the client holds it, and `loadViewportGeometry`, which merges
-- one grid cell into it. `Rows` are what the server sends, `Store` is the state, `Merge` and
-- `Surroundings` put rows into it and `Load` is the function around them.
pub mod Rows
pub mod Store
pub mod Merge
pub mod Surroundings
pub mod Load
