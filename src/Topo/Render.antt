-- ===== src/Topo/Render.antt =====
-- `Topology.to_graphviz` and `Topology.to_dict` of src/p4net/topo/topology.py.
use p4net.Base.{
  ℕ, ◌≡◌, refl, Bool, ◌||◌, Option, none, some, List, [], ◌∷◌, ◌++◌, ℤ, pos, map, Result, ok, err,
  if◌then◌else◌,
}
use p4net.Base.Text.{Text, codes, text_eq, join}
use p4net.Base.Dict.{Dict, values}
use p4net.Builtins.IntText.{decimal}
use p4net.Topo.Nodes.{Host, P4Switch}
use p4net.Topo.Link.{Float, Link, LinkEndpoint, LinkOptions}
use p4net.Topo.Topology.{Topology}

-- The only raise of `to_graphviz`.
pub data LayoutError : Type 0 where
  unknown_layout : Text → LayoutError

valid_layout : Text → Bool
valid_layout s =
    text_eq s (codes "LR")
    || text_eq s (codes "RL")
    || text_eq s (codes "TB")
    || text_eq s (codes "BT")

abbrev quoted : Text → Text
quoted s = b'"' ∷ (s ++ (b'"' ∷ []))

abbrev given : Option Text → List Text
given none = []
given (some s) = s ∷ []

-- `"\\n".join(parts)`
abbrev label_of : List Text → Text
label_of parts = join (codes "\\n") parts

host_line : Host → Text
host_line h =
    codes "  "
    ++ (quoted (Host.name h)
        ++ (codes " [shape=ellipse, label="
            ++ (quoted (label_of (Host.name h ∷ (given (Host.ip h) ++ given (Host.ip6 h))))
                ++ codes "];")))

grpc_part : Option ℕ → List Text
grpc_part none = []
grpc_part (some p) = (codes "grpc :" ++ decimal p) ∷ []

switch_line : P4Switch → Text
unfolding grpc_part
switch_line s =
    codes "  "
    ++ (quoted (P4Switch.name s)
        ++ (codes " [shape=box, label="
            ++ (quoted (label_of (P4Switch.name s ∷ grpc_part (P4Switch.grpc_port s)))
                ++ codes "];")))

edge_line : Link → Text
edge_line l =
    codes "  "
    ++ (quoted (LinkEndpoint.node (Link.a l))
        ++ (codes " -> " ++ (quoted (LinkEndpoint.node (Link.b l)) ++ codes " [arrowhead=none];")))

graph_lines : Topology → Text → List Text
unfolding host_line switch_line edge_line
graph_lines t layout =
    codes "digraph p4net {"
    ∷ (codes "  rankdir=" ++ (layout ++ codes ";"))
    ∷ codes "  node [fontname=\"monospace\"];"
    ∷ (map host_line (values (Topology.hosts t))
        ++ (map switch_line (values (Topology.switches t))
            ++ (map edge_line (Topology.links t) ++ (codes "}" ∷ []))))

unfoldable pub to_graphviz : Topology → Text → Result LayoutError Text
unfolding valid_layout graph_lines
to_graphviz t layout =
    if valid_layout layout
    then ok (join (codes "\n") (graph_lines t layout) ++ codes "\n")
    else err (unknown_layout layout)

-- The JSON values of a snapshot. An object lists its fields in the order of their insertion, to
-- which Python's equality of dicts does not look.
mutual
  pub data Json : Type 0 where
    null : Json
    text : Text → Json
    number : ℤ → Json
    float : Float → Json
    flag : Bool → Json
    object : Fields → Json
    array : Items → Json

  pub data Fields : Type 0 where
    no_field : Fields
    field : Text → Json → Fields → Fields

  pub data Items : Type 0 where
    no_item : Items
    item : Json → Items → Items

abbrev pub of_text : Option Text → Json
of_text none = null
of_text (some s) = text s

abbrev pub of_nat : Option ℕ → Json
of_nat none = null
of_nat (some n) = number (pos n)

abbrev pub of_int : Option ℤ → Json
of_int none = null
of_int (some z) = number z

abbrev pub of_float : Option Float → Json
of_float none = null
of_float (some x) = float x

unfoldable pub host_to_dict : Host → Json
host_to_dict h = object (
    field (codes "name") (text (Host.name h)) (
      field (codes "ip") (of_text (Host.ip h)) (
        field (codes "mac") (of_text (Host.mac h)) (
          field (codes "default_route") (of_text (Host.default_route h)) (
            field (codes "ip6") (of_text (Host.ip6 h))
              (field (codes "default_route6") (of_text (Host.default_route6 h)) (no_field)))))))

-- `str(path)` is a parameter.
unfoldable pub switch_to_dict : (Text → Text) → P4Switch → Json
switch_to_dict str_path s = object (
    field (codes "name") (text (P4Switch.name s)) (
      field (codes "p4_src") (text (str_path (P4Switch.p4_src s))) (
        field (codes "arch") (text (P4Switch.arch s)) (
          field (codes "device_id") (of_nat (P4Switch.device_id s)) (
            field (codes "grpc_port") (of_nat (P4Switch.grpc_port s)) (
              field (codes "thrift_port") (of_nat (P4Switch.thrift_port s)) (
                field (codes "cpu_port") (of_nat (P4Switch.cpu_port s)) (
                  field (codes "log_level") (text (P4Switch.log_level s)) (
                    field (codes "pcap_enabled") (flag (P4Switch.pcap_enabled s))
                      (no_field))))))))))

unfoldable pub endpoint_to_dict : LinkEndpoint → Json
endpoint_to_dict e = object (
    field (codes "node") (text (LinkEndpoint.node e)) (
      field (codes "port") (of_nat (LinkEndpoint.port e)) (
        field (codes "iface_name") (of_text (LinkEndpoint.iface_name e)) (
          field (codes "ip") (of_text (LinkEndpoint.ip e)) (
            field (codes "mac") (of_text (LinkEndpoint.mac e))
              (field (codes "ip6") (of_text (LinkEndpoint.ip6 e)) (no_field)))))))

unfoldable pub link_to_dict : Link → Json
unfolding endpoint_to_dict
link_to_dict l =
    let o = Link.options l in
    object (
      field (codes "a") (endpoint_to_dict (Link.a l)) (
        field (codes "b") (endpoint_to_dict (Link.b l)) (
          field (codes "bandwidth") (of_text (LinkOptions.bandwidth o)) (
            field (codes "delay") (of_text (LinkOptions.delay o)) (
              field (codes "jitter") (of_text (LinkOptions.jitter o)) (
                field (codes "loss_pct") (of_float (LinkOptions.loss_pct o)) (
                  field (codes "mtu") (of_int (LinkOptions.mtu o)) (
                    field (codes "bandwidth_a_to_b") (of_text (LinkOptions.bandwidth_a_to_b o)) (
                      field (codes "bandwidth_b_to_a") (of_text (LinkOptions.bandwidth_b_to_a o)) (
                        field (codes "delay_a_to_b") (of_text (LinkOptions.delay_a_to_b o)) (
                          field (codes "delay_b_to_a") (of_text (LinkOptions.delay_b_to_a o)) (
                            field (codes "jitter_a_to_b") (of_text (LinkOptions.jitter_a_to_b o)) (
                              field (codes "jitter_b_to_a") (of_text (LinkOptions.jitter_b_to_a o))
                                (field (codes "loss_pct_a_to_b")
                                  (of_float (LinkOptions.loss_pct_a_to_b o))
                                  (field (codes "loss_pct_b_to_a")
                                    (of_float (LinkOptions.loss_pct_b_to_a o))
                                    (field (codes "delay_a_to_b_extra")
                                      (of_text (LinkOptions.delay_a_to_b_extra o))
                                      (field (codes "delay_b_to_a_extra")
                                        (of_text (LinkOptions.delay_b_to_a_extra o))
                                        (field (codes "jitter_a_to_b_extra")
                                          (of_text (LinkOptions.jitter_a_to_b_extra o))
                                          (field (codes "jitter_b_to_a_extra")
                                            (of_text (LinkOptions.jitter_b_to_a_extra o))
                                            (field (codes "loss_pct_a_to_b_extra")
                                              (of_float (LinkOptions.loss_pct_a_to_b_extra o))
                                              (field (codes "loss_pct_b_to_a_extra")
                                                (of_float (LinkOptions.loss_pct_b_to_a_extra o))
                                                (no_field))))))))))))))))))))))

abbrev pub fields_of_dict : {V : Type 0} → (V → Json) → Dict Text V → Fields
fields_of_dict f [] = no_field
fields_of_dict f ((k, v) ∷ d) = field k (f v) (fields_of_dict f d)

abbrev pub items_of : {A : Type 0} → (A → Json) → List A → Items
items_of f [] = no_item
items_of f (a ∷ more) = item (f a) (items_of f more)

unfoldable pub to_dict : (Text → Text) → Topology → Json
unfolding host_to_dict switch_to_dict link_to_dict
to_dict str_path t = object (
    field (codes "hosts") (object (fields_of_dict host_to_dict (Topology.hosts t))) (
      field (codes "switches")
        (object (fields_of_dict (switch_to_dict str_path) (Topology.switches t)))
        (field (codes "links") (array (items_of link_to_dict (Topology.links t))) no_field)))

empty_graph :
    to_graphviz (record { hosts = []; switches = []; links = [] }) (codes "LR")
    ≡ ok (codes "digraph p4net {\n  rankdir=LR;\n  node [fontname=\"monospace\"];\n}\n")
unfolding to_graphviz text_eq join
empty_graph = refl
