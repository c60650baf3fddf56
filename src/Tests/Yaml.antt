-- ===== src/Tests/Yaml.antt =====
-- Configurations as values.
use cluster_genesis.Base.{List, [], ◌∷◌, Text}
use cluster_genesis.Base.Value.{Value, Fields, end, field, list, dict}
use cluster_genesis.Config.Access.{to_values}

unfoldable pub fields : List (Text × Value) → Fields
fields [] = end
fields ((k, v) ∷ kvs) = field k v (fields kvs)

unfoldable pub obj : List (Text × Value) → Value
unfolding fields
obj kvs = dict (fields kvs)

abbrev pub many : List Value → Value
many vs = list (to_values vs)
