-- ===== src/Topo/Restore/Examples.antt =====
-- Runs of `from_dict` on small payloads, and its theorem at a concrete topology.
use p4net.Base.{◌≡◌, refl, [], pos, ok, err}
use p4net.Base.Text.{codes, text_eq, split}
use p4net.Base.Dict.{insert, text_eq_instance}
use p4net.Topo.Names.{name_re, name_char, is_letter, all_chars, mac_fullmatch, invalid_mac}
use p4net.Topo.Nodes.{new_host, check_host}
use p4net.Topo.Topology.{new_topology}
use p4net.Topo.Topology.Examples.{linked, linked-Built}
use p4net.Topo.Render.{Json, text, number, object, no_field, field, to_dict}
use p4net.Topo.Payload.{get, key_error, other_kind, refused}
use p4net.Topo.Restore.{restore_host, restore_entries, restore_links, from_dict}
use p4net.Topo.Restore.RoundTrip.{from_dict-to_dict}

-- A payload with one host of these fields.
abbrev one_host : Json → Json
one_host host = object (field (codes "hosts") (object (field (codes "h1") host no_field)) no_field)

bad_payloads :
    (from_dict (λ path. path) (object no_field) ≡ ok new_topology)
    × (from_dict (λ path. path) (one_host (object no_field)) ≡ err key_error)
    × (from_dict (λ path. path) (one_host (object (field (codes "name") (number (pos 1)) no_field)))
        ≡ err other_kind)
    × (from_dict
          (λ path. path)
          (one_host (
            object
              (field (codes "name") (text (codes "h1")) (field (codes "mac") (text []) no_field))))
        ≡ err (refused invalid_mac))
unfolding from_dict restore_entries restore_links restore_host get text_eq insert new_host split
    check_host name_re name_char is_letter all_chars mac_fullmatch
bad_payloads = (refl, refl, refl, refl)

from_dict-to_dict_example : from_dict (λ path. path) (to_dict (λ path. path) linked) ≡ ok linked
from_dict-to_dict_example =
    from_dict-to_dict (λ path. path) (λ path. path) linked linked-Built (refl, tt)
