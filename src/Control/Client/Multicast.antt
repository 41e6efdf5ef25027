-- ===== src/Control/Client/Multicast.antt =====
-- Multicast groups in src/p4net/control/client.py.
use p4net.Base.{Bool, true, List, [], ◌∷◌, ok, err, ◌>>◌, raise_if, ℤ, pos, negsuc, ◌==◌}
use p4net.Base.Dict.{int_eq, Dict, insert}
use p4net.Control.Client.RpcErrors.{encoding_error}
use p4net.Control.Client.{
  Client, Called, require_connected, Replica, Entity, multicast_entity, UpdateType, insert_update,
  modify_update, delete_update, WriteRequest, Stub, write_request, read_request, send_built,
  read_with,
}

-- `group_id <= 0`
unfoldable pub not_positive : ℤ → Bool
not_positive (pos n) = n == 0
not_positive (negsuc n) = true

-- One replica per port, with instance 1.
unfoldable pub replicas_of : List ℤ → List Replica
replicas_of [] = []
replicas_of (p ∷ ps) = record { egress_port = p; instance_id = 1 } ∷ replicas_of ps

unfoldable pub replicas_for : UpdateType → List ℤ → List Replica
replicas_for delete_update ports = []
replicas_for _ ports = replicas_of ports

-- The request of `_mcast_write`.
unfoldable pub mcast_request : Client → UpdateType → ℤ → List ℤ → Called WriteRequest
unfolding replicas_for not_positive
mcast_request c kind group_id ports = do
  require_connected c
  raise_if (not_positive group_id) encoding_error
  ok (
      write_request c (
        record {
          kind = kind;
          entity =
              multicast_entity
                (record { multicast_group_id = group_id; replicas = replicas_for kind ports });
        }
        ∷ []))

unfoldable pub egress_ports : List Replica → List ℤ
egress_ports [] = []
egress_ports (r ∷ rs) = r.egress_port ∷ egress_ports rs

unfoldable pub collect_groups : Dict ℤ (List ℤ) → List Entity → Dict ℤ (List ℤ)
unfolding egress_ports
collect_groups out [] = out
collect_groups out (multicast_entity g ∷ es) =
    collect_groups (insert g.multicast_group_id (egress_ports g.replicas) out) es
collect_groups out (_ ∷ es) = collect_groups out es

module _ {S : Type 0} (stub : Stub S) where
  unfoldable pub add_multicast_group : Client → ℤ → List ℤ → S → S × Called (Unit {0})
  add_multicast_group c group_id ports s =
      send_built stub s (mcast_request c insert_update group_id ports)

  unfoldable pub modify_multicast_group : Client → ℤ → List ℤ → S → S × Called (Unit {0})
  modify_multicast_group c group_id ports s =
      send_built stub s (mcast_request c modify_update group_id ports)

  unfoldable pub delete_multicast_group : Client → ℤ → S → S × Called (Unit {0})
  delete_multicast_group c group_id s =
      send_built stub s (mcast_request c delete_update group_id [])

  -- Group 0 stands for all.
  unfoldable pub list_multicast_groups : Client → S → S × Called (Dict ℤ (List ℤ))
  list_multicast_groups c s = elim (require_connected c) [
    | err e ↦ (s, err e)
    | ok _ ↦
        read_with stub (λ es. ok (collect_groups [] es)) s
          (read_request c (multicast_entity (record { multicast_group_id = pos 0; replicas = [] })))
  ]
