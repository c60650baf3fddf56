-- ===== src/Config/Racks.antt =====
-- scripts/python/lib/config.py: the getters of the version and of the `location` section.
use cluster_genesis.Base.{ℕ, Option, [], ◌∷◌, nat_eq, option_eq, codes, text_eq, Result, ◌>>=◌}
use cluster_genesis.Base.Value.{Value, port_eq}
use cluster_genesis.Config.Access.{path, len, get_members}

unfoldable get_loc_time_zone : Value → Result Value
get_loc_time_zone cfg = path cfg (codes "location" ∷ codes "time_zone" ∷ [])

unfoldable get_loc_data_center : Value → Result Value
get_loc_data_center cfg = path cfg (codes "location" ∷ codes "data_center" ∷ [])

unfoldable get_loc_racks_cnt : Value → Result ℕ
get_loc_racks_cnt cfg = do members ← path cfg (codes "location" ∷ codes "racks" ∷ []); len members

unfoldable pub get_loc_racks_label : Value → Option ℕ → Result Value
get_loc_racks_label cfg index = do
  obj_list ← path cfg (codes "location" ∷ codes "racks" ∷ [])
  get_members obj_list (codes "label") index

unfoldable get_loc_racks_room : Value → Option ℕ → Result Value
get_loc_racks_room cfg index = do
  obj_list ← path cfg (codes "location" ∷ codes "racks" ∷ [])
  get_members obj_list (codes "room") index

unfoldable get_loc_racks_row : Value → Option ℕ → Result Value
get_loc_racks_row cfg index = do
  obj_list ← path cfg (codes "location" ∷ codes "racks" ∷ [])
  get_members obj_list (codes "row") index

unfoldable get_loc_racks_cell : Value → Option ℕ → Result Value
get_loc_racks_cell cfg index = do
  obj_list ← path cfg (codes "location" ∷ codes "racks" ∷ [])
  get_members obj_list (codes "cell") index
