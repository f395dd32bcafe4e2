-- ===== src/Search.antt =====
-- srv/static/game.js: the search boxes. `Match` compares names, `Ranked` sorts, `Local` is the search of the table of places,
-- `Box` a box with its requests, `Parcel` and `Recent` what choosing a row does.
pub mod Ranked
pub mod Match
pub mod Parcel
pub mod Recent
pub mod Local
pub mod Box
