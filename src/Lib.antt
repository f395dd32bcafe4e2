-- ===== src/Lib.antt =====
-- A model of the browser client of Siedler Österreich (srv/static/game.js), its rules and its loading
-- of the cadastre, with the theorems that make these correct.
--
-- The client asks the server for the grid cells of the map. Each answer brings parcels, footprints,
-- land-use areas and cadastral communities (KGs), which are merged into one global store, `G`.
-- Claims and harvest clocks arrive with hashed names, which the loaded parcels resolve. From a
-- parcel's land use, its crop and its harvest clock follow its price, its stage of regrowth and what
-- a sale of it pays.
--
-- - Prelude and its children: shared names, Boolean tests on numbers, lists, dictionaries and sets on
--   association lists, code units.
-- - Landuse: `NS_TABLE`, `nsWeight` (Table), `parseLanduseSummary` (Keys for the look-up of one key,
--   Summary for the whole), `waterFraction` (Water), `extractLuCode` (Code). The child modules
--   Summary/Dominant, Code/Mode and Code/Wet
--   hold the theorems.
-- - Geometry: `geomAllRings`, `ringArea2`, `biggestRing`, `featureLonLat`; Geometry/Biggest; Geometry/EvenOdd: `pip`,
--   `pipRings`, `pipGeom`.
-- - Claims: `harvestOf`, `resolveClaims`; Claims/Resolve holds the theorems.
-- - Regrowth: `simpleHash`, `hashMix` (Hash), `forestStage` (Forest), `fieldStage` (Field, with the
--   theorem in Field/Forecast), `claimIsForest`, `regenOf`, `sellQuote`, `convertXPOf` (Value, with
--   the theorems in Value/Bounds).
-- - Price: `calcPrice`, `harvestYield`; Price/Order.
-- - Api: the request loop `api`; Api/Budget.
-- - Cadastre: the rows of an answer (Rows), the part of `G` that cells fill (Store), the loops of
--   `loadViewportGeometry` (Merge for the parcels, Surroundings for the rest, with what they keep in Merge/Frame,
--   Merge/Unique and Merge/Upgrade), the function
--   itself (Load, Load/Laws, Load/Upgrade), and `layerRetryMs`, `loadTileResilient` (Load/Retry, Load/Retry/Bounded).
-- - Layers: `loadBboxLayer`, which the companion layers share; Layers/Once, Layers/Complete. Layers/Points: `loadPointLayer`.
-- - Herald: the dialogue box. Box holds `play`, `showLine`, `advance`, `dismiss` (with Box/Laws and Box/Frame), Queue
--   holds `enqueue`, `pump`, `_next` (Queue/Laws), Quests holds `brief`, `start`, `hint`, `completed`, `questsChanged`
--   (Quests/Laws), and Steps all of these and the timers as one relation.
-- - Relief: the hillshade tiles. Picture is `decodeReliefTile`, Queue `reliefTile` and `tilePump` (Queue/Laws, Queue/Look),
--   Fetch the end of `fetchReliefTile`, and Steps all events.
-- - Grid: `cellOf`, `gridTiles`, `tilesInAustria`, `fetchKGPolygons`; Grid/Nearest. Grid/Pool is `runPool`, with every order
--   in which the workers may come back; a worker that rejects, which would end the pool, is left out; Grid/Pool/Laws, Grid/Pool/Ends.
--   Grid/Opening is `fetchKGPolygonsBlocking`.
-- - Toasts: `toast` and its pump; Toasts/Counts, Toasts/Neat, Toasts/Tidy.
-- - Folio: `buildEZIndex`, `visibleQuests`; Folio/Current.
-- - Visited: `visitedKGs`, `noteVisitedKG`, `luckyAvoidQS` in Lucky; Visited/Base36, Visited/Trip, Visited/Note.
-- - Search: `snorm` to `smatch` in Match, `searchLocal` and `kgsAroundCamera` in Local and Local/Query,
--   `resolveParcelIntent` in Parcel (Parcel/Requests), `searchRecentPush` in Recent, the boxes of `createSearchBox` in Box;
--   Box/Steps has all events of a box (Box/Sound, Box/Shows), Local/Order, Local/Best and Local/Query/Bounds what is listed.
-- - Actions: `doClaim` to `claimTreasure`, `doHarvestForest`, `doDigWell`. Land, Market and Hunt hold the pieces between
--   two awaits; Actions/Answers what an answer of the server changes.
-- - Parcels: `geoBounds`, `parcelGrid`, `parcelAt`, and `parcelSchlag` in Schlag; Parcels/Search, Parcels/Schlag/Kept.
-- - Lidar: `addLidarBuilding`, `findLidarBuilding`; Lidar/Nearby.
-- - Treasures: `unfoundTreasures`, `maybeRoamTreasures`. Perf: `PERF`; Perf/Recovery. Upstream: `noteUpstreamDown`,
--   `upstreamIsDown`, `apiStat`; Upstream/Spaced.
-- - Session: `handleEvent`; Session/Follows. Beacon: `beaconFrameBegin`, `beaconTurn`; Beacon/Turns for a
--   frame, Beacon/Paced for a run.
-- - Enhanced: `loadEnhancedRegistry`, `loadEnhancedForKGs`; Enhanced/Flags.
-- - Tests: a concrete input for each result below.
--
-- An asynchronous function is the function of the replies that its requests get, up to the next
-- request or timer; what a timer calls later is the next step. So `load_viewport_geometry` is
-- `start_load` and then `receive`, and `poll` runs the rounds of one cell while nothing else touches
-- it. Fuel: nine attempts are all that `api` makes, since the ninth returns; eleven rounds are all that
-- `poll` makes, since each round that goes on counts one of ten tries;
-- `find_parcel` has the twenty rounds of its loop, and `wait_rounds` one for each 150 ms of the budget and one more;
-- `print36` has one step more than the number counts, and each step makes it smaller.
--
-- A component that is driven by events, such as `Herald` or `TILEQ`, is a relation between its states: one step for each
-- call, timer and answer, in any order. A timer is the wait that it was set for, and its firing is a step of its own.
--
-- Numbers: the source's doubles are exact here. Times are whole milliseconds, areas whole square
-- metres, coordinates counts of a small fixed step; shares and factors are fractions, and rounding is
-- to the nearest whole number, halves up. Shifts of `simpleHash` and products of `hashMix` wrap at 32
-- bits. An empty text, or `none`, is an absent or empty value. `landuse_codes` comes split at its
-- commas and trimmed. `Math.random` is the parameter `jitter`, the first unit of a letter's decomposition `base`, the order
-- of `localeCompare` `rank`, `encodeURIComponent` `encode`.
--
-- Not modelled: drawing, sprites, sounds, page elements and input; the assignment of apex trees and
-- the caches of drawing data; chat and the minimap; the
-- translations (srv/static/i18n.js); the server, the database and the tools, which are Go, SQL and
-- Python. The server is the replies, over which every theorem ranges.
pub mod Prelude
pub mod Landuse
pub mod Geometry
pub mod Claims
pub mod Regrowth
pub mod Price
pub mod Api
pub mod Cadastre
pub mod Layers
pub mod Herald
pub mod Relief
pub mod Grid
pub mod Toasts
pub mod Folio
pub mod Visited
pub mod Session
pub mod Search
pub mod Parcels
pub mod Lidar
pub mod Actions
pub mod Treasures
pub mod Perf
pub mod Upstream
pub mod Beacon
pub mod Enhanced
pub mod Tests
