-- ===== src/Network/Wiring.antt =====
-- The wiring of a link and the resources that it creates.
use p4net.Base.{
  ℕ, ◌≡◌, refl, Bool, true, false, not, Option, none, some, List, [], ◌∷◌, if◌then◌else◌, Result, ℤ,
}
use p4net.Base.Text.{Text, codes}
use p4net.Builtins.IntText.{str_int}
use p4net.Topo.Nodes.{Host, is_some}
use p4net.Topo.Link.{Float, Link, LinkEndpoint}
use p4net.Topo.Topology.{Topology, NodeKind, a_host, a_switch, node}
use p4net.Topo.Validate.Addresses.{effective_host_addresses, in_set, add_to_set}
use p4net.Runtime.Tc.{is_clear, netem_argv}
use p4net.Network.Directions.{Floats, direction_params}
use p4net.Network.Calls.{
  Side, side_a, side_b, Call, create_veth, exec_in, Answer, Log, Failure, Net, Act, give, ◌>>◌,
  lifted, do_call, enable_ipv6, disable_ipv6, unknown_node, missing_interface, no_direction,
  no_command, veth_mac, veth_mtu, veth_up, run_tc,
}
use p4net.Network.Start.{
  exec_given, call_given, configure_host_iface, configure_host_end, configure_switch_end,
  configure_end, shape_direction, make_veth, wire_link, wire_links, mac_for, require_iface,
  namespace_of,
}
use p4net.Network.Resources.{Resource, creates, Tracks}
use p4net.Network.Tracking.{
  with_veth, with_veth-more, with_veth-new, Keeps, give-Keeps, fail-Keeps, lifted-Keeps, then-Keeps,
  call-Keeps, IsAddition, create-Keeps,
}

module _ (answers : Log → Call → Answer) where
  pub and_then :
      {B : Type 0} (act : Act (Unit {0})) (next : Act B)
      → Keeps answers act
      → Keeps answers next
      → Keeps answers (act >> next)
  and_then act next h q = then-Keeps answers act (λ _. next) h (λ _. q)

  -- A call of a kind that creates nothing, or one of two.
  pub quiet_call :
      (c : Call) → ((r : Resource) → creates c r ≡ false) → Keeps answers (do_call answers c)
  quiet_call c quiet = call-Keeps answers c quiet

  choice_call :
      (b : Bool) (c d : Call)
      → ((r : Resource) → creates c r ≡ false)
      → ((r : Resource) → creates d r ≡ false)
      → Keeps answers (do_call answers (if b then c else d))
  choice_call true c d h q = call-Keeps answers c h
  choice_call false c d h q = call-Keeps answers d q

  pub if-Keeps :
      {A : Type 0} (b : Bool) (x y : Act A)
      → Keeps answers x
      → Keeps answers y
      → Keeps answers (if b then x else y)
  if-Keeps true x y h q = h
  if-Keeps false x y h q = q

  pub pick-Tracks :
      {A : Type 0} (b : Bool) (x y : Net × Result Failure A)
      → Tracks x.0
      → Tracks y.0
      → Tracks (if b then x else y).0
  pick-Tracks true x y h q = h
  pick-Tracks false x y h q = q

  module _ (floats : Floats) (show_float : Float → Text) (unsafe with_pcap : Bool) (now : ℕ) where
    exec_given-Keeps :
        {A : Type 0} (ns : Text) (o : Option A) (argv : A → List Text)
        → Keeps answers (exec_given answers floats show_float unsafe with_pcap now ns o argv)
    unfolding creates
    exec_given-Keeps ns none argv = give-Keeps answers tt
    exec_given-Keeps ns (some a) argv = quiet_call _ (λ r. refl)

    configure_host_iface-Keeps :
        (ns iface : Text) (ip ip6 mac : Option Text) (mtu : Option ℤ)
        → Keeps answers (
            configure_host_iface answers floats show_float unsafe with_pcap now ns iface ip ip6 mac
              mtu)
    unfolding configure_host_iface creates
    configure_host_iface-Keeps ns iface ip ip6 mac mtu =
        and_then _ _
          (exec_given-Keeps ns mac
            (λ m. codes "ip" ∷ codes "link" ∷ codes "set" ∷ iface ∷ codes "address" ∷ m ∷ []))
          (and_then _ _
            (exec_given-Keeps ns mtu
              (λ m. codes "ip" ∷ codes "link" ∷ codes "set" ∷ iface ∷ codes "mtu" ∷ str_int m ∷ []))
            (and_then _ _
              (exec_given-Keeps ns ip
                (λ a. codes "ip" ∷ codes "addr" ∷ codes "add" ∷ a ∷ codes "dev" ∷ iface ∷ []))
              (and_then _ _
                (exec_given-Keeps ns ip6 (λ a.
                  codes "ip"
                  ∷ codes "-6"
                  ∷ codes "addr"
                  ∷ codes "add"
                  ∷ a
                  ∷ codes "dev"
                  ∷ iface
                  ∷ []))
                (quiet_call
                  (exec_in ns (codes "ip" ∷ codes "link" ∷ codes "set" ∷ iface ∷ codes "up" ∷ []))
                  (λ r. refl)))))

    call_given-Keeps :
        {A : Type 0} (o : Option A) (c : A → Call)
        → ((a : A) (r : Resource) → creates (c a) r ≡ false)
        → Keeps answers (call_given answers floats show_float unsafe with_pcap now o c)
    call_given-Keeps none c quiet = give-Keeps answers tt
    call_given-Keeps (some a) c quiet = quiet_call (c a) (quiet a)

    configure_host_end-Keeps :
        (h : Host) (e : LinkEndpoint) (iface : Text) (mtu : Option ℤ) (first_link : Bool)
        → Keeps answers (
            configure_host_end answers floats show_float unsafe with_pcap now h e iface mtu
              first_link)
    unfolding configure_host_end creates
    configure_host_end-Keeps h e iface mtu first_link =
        and_then _ _
          (choice_call (is_some (effective_host_addresses h e first_link).1)
            (enable_ipv6 (some h.name) iface) (disable_ipv6 (some h.name) iface) (λ r. refl)
            (λ r. refl))
          (configure_host_iface-Keeps h.name iface (effective_host_addresses h e first_link).0
            (effective_host_addresses h e first_link).1
            (mac_for answers floats show_float unsafe with_pcap now h e first_link) mtu)

    configure_switch_end-Keeps :
        (name_a name_b : Text) (side : Side) (e : LinkEndpoint) (iface : Text) (mtu : Option ℤ)
        → Keeps answers (
            configure_switch_end answers floats show_float unsafe with_pcap now name_a name_b side e
              iface mtu)
    unfolding configure_switch_end creates
    configure_switch_end-Keeps name_a name_b side e iface mtu =
        and_then _ _ (quiet_call (disable_ipv6 none iface) (λ r. refl)) (
          and_then _ _ (call_given-Keeps e.mac (veth_mac name_a name_b side) (λ a r. refl)) (
            and_then _ _
              (call_given-Keeps mtu (λ m. veth_mtu name_a name_b side (str_int m)) (λ a r. refl))
              (quiet_call (veth_up name_a name_b side) (λ r. refl))))

    configure_end-Keeps :
        (name_a name_b : Text) (side : Side) (n : NodeKind) (e : LinkEndpoint) (iface : Text)
        (mtu : Option ℤ) (seen : List Text)
        → Keeps answers (
            configure_end answers floats show_float unsafe with_pcap now name_a name_b side n e
              iface mtu seen)
    unfolding configure_end
    configure_end-Keeps name_a name_b side (a_host h) e iface mtu seen =
        and_then _ _ (configure_host_end-Keeps h e iface mtu (not (in_set h.name seen)))
          (give-Keeps answers (add_to_set h.name seen))
    configure_end-Keeps name_a name_b side (a_switch s) e iface mtu seen =
        and_then _ _ (configure_switch_end-Keeps name_a name_b side e iface mtu)
          (give-Keeps answers seen)

    shape_direction-Keeps :
        (link : Link) (direction : Bool) (n : NodeKind) (iface : Text)
        → Keeps answers
            (shape_direction answers floats show_float unsafe with_pcap now link direction n iface)
    unfolding shape_direction creates
    shape_direction-Keeps link direction n iface =
        then-Keeps answers (lifted no_direction (direction_params floats link direction)) _
          (lifted-Keeps answers no_direction (direction_params floats link direction))
          (λ netem. if-Keeps (is_clear netem) (give tt) _ (give-Keeps answers tt) (
            then-Keeps answers (lifted no_command (netem_argv show_float iface netem)) _
              (lifted-Keeps answers no_command (netem_argv show_float iface netem))
              (λ argv. quiet_call (run_tc (namespace_of n) argv) (λ r. refl))))

    make_veth-Keeps :
        (name_a name_b : Text) (node_a node_b : NodeKind)
        → Keeps answers
            (make_veth answers floats show_float unsafe with_pcap now name_a name_b node_a node_b)
    unfolding make_veth IsAddition
    make_veth-Keeps name_a name_b node_a node_b =
        create-Keeps answers (create_veth name_a name_b (namespace_of node_a) (namespace_of node_b))
          (with_veth name_a name_b) (give tt) (λ n. refl, with_veth-more name_a name_b)
          (with_veth-new name_a name_b (namespace_of node_a) (namespace_of node_b))
          (give-Keeps answers tt)

    require_iface-Keeps :
        (o : Option Text)
        → Keeps answers (require_iface answers floats show_float unsafe with_pcap now o)
    require_iface-Keeps none = fail-Keeps answers Text missing_interface
    require_iface-Keeps (some iface) = give-Keeps answers iface

    wire_link-Keeps :
        (t : Topology) (link : Link) (seen : List Text)
        → Keeps answers (wire_link answers floats show_float unsafe with_pcap now t link seen)
    unfolding wire_link
    wire_link-Keeps t link seen =
        then-Keeps answers
          (require_iface answers floats show_float unsafe with_pcap now link.a.iface_name) _
          (require_iface-Keeps link.a.iface_name)
          (λ name_a.
            then-Keeps answers
              (require_iface answers floats show_float unsafe with_pcap now link.b.iface_name) _
              (require_iface-Keeps link.b.iface_name)
              (λ name_b.
                then-Keeps answers (lifted (λ _. unknown_node) (node t link.a.node)) _
                  (lifted-Keeps answers (λ _. unknown_node) (node t link.a.node))
                  (λ node_a.
                    then-Keeps answers (lifted (λ _. unknown_node) (node t link.b.node)) _
                      (lifted-Keeps answers (λ _. unknown_node) (node t link.b.node))
                      (λ node_b.
                        and_then
                          (make_veth answers floats show_float unsafe with_pcap now name_a name_b
                            node_a node_b)
                          _ (make_veth-Keeps name_a name_b node_a node_b)
                          (then-Keeps answers
                            (configure_end answers floats show_float unsafe with_pcap now name_a
                              name_b side_a node_a link.a name_a link.options.mtu seen)
                            _
                            (configure_end-Keeps name_a name_b side_a node_a link.a name_a
                              link.options.mtu seen)
                            (λ seen_a.
                              then-Keeps answers
                                (configure_end answers floats show_float unsafe with_pcap now name_a
                                  name_b side_b node_b link.b name_b link.options.mtu seen_a)
                                _
                                (configure_end-Keeps name_a name_b side_b node_b link.b name_b
                                  link.options.mtu seen_a)
                                (λ seen_b.
                                  and_then
                                    (shape_direction answers floats show_float unsafe with_pcap now
                                      link true node_a name_a)
                                    _ (shape_direction-Keeps link true node_a name_a)
                                    (and_then
                                      (shape_direction answers floats show_float unsafe with_pcap
                                        now link false node_b name_b)
                                      _ (shape_direction-Keeps link false node_b name_b)
                                      (give-Keeps answers seen_b)))))))))

    pub wire_links-Keeps :
        (t : Topology) (ls : List Link) (seen : List Text)
        → Keeps answers (wire_links answers floats show_float unsafe with_pcap now t ls seen)
    unfolding wire_links
    wire_links-Keeps t [] seen = give-Keeps answers tt
    wire_links-Keeps t (l ∷ ls) seen =
        then-Keeps answers (wire_link answers floats show_float unsafe with_pcap now t l seen)
          (λ next. wire_links answers floats show_float unsafe with_pcap now t ls next)
          (wire_link-Keeps t l seen) (λ next. wire_links-Keeps t ls next)
