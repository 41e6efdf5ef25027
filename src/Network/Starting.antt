-- ===== src/Network/Starting.antt =====
-- The operations of a start and the resources that they create.
use p4net.Base.{ℕ, ◌≡◌, refl, Bool, true, Option, none, some, List, [], ◌∷◌, ◌++◌, ok}
use p4net.Base.Text.{Text, codes}
use p4net.Topo.Nodes.{Host, P4Switch}
use p4net.Topo.Link.{Float}
use p4net.Topo.Topology.{Topology}
use p4net.Topo.Validate.Whole.{validate}
use p4net.Network.Directions.{Floats}
use p4net.Network.Calls.{
  Call, create_namespace, start_bmv2, connect_client, push_pipeline, await_bmv2, exec_in, Answer,
  Log, Net, add_key, update, do_call, invalid_topology, register_hooks, make_dirs, await_ipv6,
}
use p4net.Network.Start.{
  check_topology, compile_switch, register_cleanup, start_namespace, add_route, default_routes,
  start_switch, start_client, start_clients, do_start, switch_process, keys_of,
}
use p4net.Network.Resources.{
  Resource, a_namespace, a_process, a_client, a_veth, creates, is_tracked,
}
use p4net.Network.Tracking.{
  with_namespace, with_switch, with_client, with_namespace-more, with_switch-more, with_client-more,
  with_namespace-new, with_switch-new, with_client-new, Keeps, give-Keeps, lifted-Keeps,
  for_each-Keeps, update-Keeps, IsAddition, create-Keeps,
}
use p4net.Network.Wiring.{and_then, quiet_call, if-Keeps, pick-Tracks, wire_links-Keeps}

compiled-more :
    (k : Text) (n : Net) (r : Resource)
    → is_tracked r n ≡ true
    → is_tracked r (record n { compiled = add_key k n.compiled }) ≡ true
unfolding is_tracked
compiled-more k n (a_namespace j) h = h
compiled-more k n (a_process j) h = h
compiled-more k n (a_client j) h = h
compiled-more k n (a_veth a b) h = h

registered-more :
    (n : Net) (r : Resource)
    → is_tracked r n ≡ true
    → is_tracked r (record n { registered = true }) ≡ true
unfolding is_tracked
registered-more n (a_namespace j) h = h
registered-more n (a_process j) h = h
registered-more n (a_client j) h = h
registered-more n (a_veth a b) h = h

views-more :
    (hosts switches : List Text) (n : Net) (r : Resource)
    → is_tracked r n ≡ true
    → is_tracked r (record n { running_hosts = hosts; running_switches = switches }) ≡ true
unfolding is_tracked
views-more hosts switches n (a_namespace j) h = h
views-more hosts switches n (a_process j) h = h
views-more hosts switches n (a_client j) h = h
views-more hosts switches n (a_veth a b) h = h

module _ (answers : Log → Call → Answer) where
  module _ (floats : Floats) (show_float : Float → Text) (unsafe with_pcap : Bool) (now : ℕ) where
    check_topology-Keeps :
        (t : Topology)
        → Keeps answers (check_topology answers floats show_float unsafe with_pcap now t)
    unfolding check_topology
    check_topology-Keeps t =
        if-Keeps answers unsafe _ _ (give-Keeps answers tt)
          (lifted-Keeps answers invalid_topology (validate t))

    compile_switch-Keeps :
        (e : Text × P4Switch)
        → Keeps answers (compile_switch answers floats show_float unsafe with_pcap now e)
    unfolding compile_switch creates IsAddition
    compile_switch-Keeps (name, s) = and_then answers _ _ (quiet_call answers _ (λ r. refl)) (
        update-Keeps answers (λ n. record n { compiled = add_key name n.compiled })
          (λ n. refl, λ n r h. compiled-more name n r h))

    start_namespace-Keeps :
        (e : Text × Host)
        → Keeps answers (start_namespace answers floats show_float unsafe with_pcap now e)
    unfolding start_namespace creates IsAddition
    start_namespace-Keeps (name, h) =
        create-Keeps answers (create_namespace name) (with_namespace name) _
          (λ n. refl, with_namespace-more name) (with_namespace-new name)
          (quiet_call answers _ (λ r. refl))

    add_route-Keeps :
        (ns : Text) (o : Option Text) (argv : List Text)
        → Keeps answers (add_route answers floats show_float unsafe with_pcap now ns o argv)
    unfolding creates
    add_route-Keeps ns none argv = give-Keeps answers tt
    add_route-Keeps ns (some []) argv = give-Keeps answers tt
    add_route-Keeps ns (some (c ∷ s)) argv =
        quiet_call answers (exec_in ns (argv ++ ((c ∷ s) ∷ []))) (λ r. refl)

    default_routes-Keeps :
        (e : Text × Host)
        → Keeps answers (default_routes answers floats show_float unsafe with_pcap now e)
    unfolding default_routes
    default_routes-Keeps (name, h) =
        and_then answers _ _
          (add_route-Keeps name h.default_route
            (codes "ip" ∷ codes "route" ∷ codes "add" ∷ codes "default" ∷ codes "via" ∷ []))
          (add_route-Keeps name h.default_route6 (
            codes "ip"
            ∷ codes "-6"
            ∷ codes "route"
            ∷ codes "add"
            ∷ codes "default"
            ∷ codes "via"
            ∷ []))

    start_switch-Keeps :
        (t : Topology) (e : Text × P4Switch)
        → Keeps answers (start_switch answers floats show_float unsafe with_pcap now t e)
    unfolding start_switch creates IsAddition switch_process
    start_switch-Keeps t (name, s) =
        create-Keeps answers
          (start_bmv2 (switch_process answers floats show_float unsafe with_pcap now t name s))
          (with_switch name) (do_call answers (await_bmv2 name)) (λ n. refl, with_switch-more name)
          (with_switch-new (switch_process answers floats show_float unsafe with_pcap now t name s))
          (quiet_call answers (await_bmv2 name) (λ r. refl))

    start_client-Keeps :
        (name : Text)
        → Keeps answers (start_client answers floats show_float unsafe with_pcap now name)
    unfolding start_client creates IsAddition
    start_client-Keeps name =
        create-Keeps answers (connect_client name now) (with_client name)
          (do_call answers (push_pipeline name)) (λ n. refl, with_client-more name)
          (with_client-new name now) (quiet_call answers (push_pipeline name) (λ r. refl))

    start_clients-Keeps :
        Keeps answers (start_clients answers floats show_float unsafe with_pcap now)
    unfolding start_clients Keeps
    start_clients-Keeps n tracks =
        for_each-Keeps answers n.switches
          (start_client answers floats show_float unsafe with_pcap now) start_client-Keeps n tracks

    register_cleanup-Keeps :
        Keeps answers (register_cleanup answers floats show_float unsafe with_pcap now)
    unfolding register_cleanup Keeps creates IsAddition
    register_cleanup-Keeps n tracks =
        pick-Tracks answers n.registered (n, ok tt) _ tracks
          (and_then answers (do_call answers register_hooks)
            (update (λ m. record m { registered = true }))
            (quiet_call answers register_hooks (λ r. refl))
            (update-Keeps answers (λ m. record m { registered = true })
              (λ m. refl, registered-more))
            n tracks)

    pub do_start-Keeps :
        (t : Topology) → Keeps answers (do_start answers floats show_float unsafe with_pcap now t)
    unfolding do_start creates IsAddition
    do_start-Keeps t = and_then answers _ _ (check_topology-Keeps t) (
        and_then answers _ _ (quiet_call answers make_dirs (λ r. refl)) (
          and_then answers _ _ (for_each-Keeps answers t.switches _ compile_switch-Keeps) (
            and_then answers _ _ register_cleanup-Keeps (
              and_then answers _ _ (for_each-Keeps answers t.hosts _ start_namespace-Keeps) (
                and_then answers _ _
                  (wire_links-Keeps answers floats show_float unsafe with_pcap now t t.links [])
                  (and_then answers _ _ (for_each-Keeps answers t.hosts _ default_routes-Keeps) (
                    and_then answers _ _
                      (for_each-Keeps answers t.switches _ (start_switch-Keeps t))
                      (and_then answers _ _ start_clients-Keeps (
                        and_then answers _ _ (quiet_call answers await_ipv6 (λ r. refl)) (
                          update-Keeps answers
                            (λ n. record n {
                              running_hosts =
                                  keys_of answers floats show_float unsafe with_pcap now t.hosts;
                              running_switches =
                                  keys_of answers floats show_float unsafe with_pcap now t.switches;
                            })
                            (
                              λ n. refl,
                              views-more
                                  (keys_of answers floats show_float unsafe with_pcap now t.hosts)
                                  (keys_of answers floats show_float unsafe with_pcap now
                                    t.switches),
                            )))))))))))
