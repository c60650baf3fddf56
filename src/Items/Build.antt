-- ===== src/Items/Build.antt =====
-- scripts/python/lib/inv_items.py: `create_nodes` as a whole, and the inventory that
-- `InventoryCreate` of scripts/python/inv_create.py writes.
use cluster_genesis.Base.{List, nat_eq, option_eq, Text, text_eq, Result}
use cluster_genesis.Base.Value.{Value, Fields, port_eq}
use cluster_genesis.Config.Templates.Lists.{yield_ntmpl_ind}
use cluster_genesis.Inventory.Columns.{Columns, no_nodes, update_nodes}
use cluster_genesis.Items.Create.{create_templates}
use cluster_genesis.Items.Pools.{gen_interface_ip_lists}
use cluster_genesis.Reserve.Manager.{Netaddr}
use cluster_genesis.Exec.{Exec, pure, lift, ◌>>=◌}

module _ (net : Netaddr) (ip_range : Text → Text → Result (List net.Ip))
    (ip_address : Value → Result net.Ip) where
  unfoldable pub create_nodes : Value → Exec Columns (Unit {0})
  unfolding gen_interface_ip_lists yield_ntmpl_ind create_templates
  create_nodes cfg = do
    interface_ip_lists ← lift (gen_interface_ip_lists net ip_range ip_address cfg)
    inds ← lift (yield_ntmpl_ind cfg)
    _ ← create_templates net cfg inds interface_ip_lists
    pure tt

  -- `InventoryCreate.create`, up to the switches: whether `create_nodes` raised, and the nodes of the
  -- inventory file. Behind a raise `InventoryNodes.__del__` writes them.
  unfoldable pub create : Value → Result (Unit {0}) × Result (List Fields)
  unfolding create_nodes update_nodes
  create cfg = let (r, columns) = create_nodes cfg no_nodes in (r, update_nodes columns)
