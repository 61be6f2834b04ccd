-- ===== src/Board/Tests.antt =====
-- The board of a small fleet: frontend/src/pages/overview/fleetBoard.ts.
use rmm_rxf_sys_de.Base.{List, map, []}
use rmm_rxf_sys_de.Fleet.Samples.{fleet, patch_summary}
use rmm_rxf_sys_de.Board.{Tile, tile_of}

abbrev tiles : List Tile
tiles = map (tile_of patch_summary []) fleet
