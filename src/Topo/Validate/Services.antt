-- ===== src/Topo/Validate/Services.antt =====
-- Device ids are unique, and so are the TCP ports of all switches together.
use p4net.Base.{
  Distinct, ℕ, ◌≡◌, ◌≢◌, ◌↔◌, refl, sym, ap, subst, Bool, true, false, Option, none, some, List, [],
  ◌∷◌, ◌++◌, All, arith,
}
use p4net.Base.Text.{Text}
use p4net.Base.Dict.{nat_eq, pair_eq, values}
use p4net.Topo.Nodes.{P4Switch}
use p4net.Topo.Topology.{Topology}
use p4net.Topo.Validate.Problems.{service_collision, PortField}
use p4net.Topo.Validate.Claims.{service_claim, service_claims, service_problems, bool_eq}
use p4net.Topo.Validate.Owners.{claimed, IsSound, collide_nothing_iff}
use p4net.Topo.Validate.Distinct.{when_set_to, absent_all}

pub device_ids : List P4Switch → List ℕ
device_ids [] = []
device_ids (s ∷ ss) = when_set_to (P4Switch.device_id s) (λ n. n) ++ device_ids ss

-- Both kinds of ports, of all switches.
pub tcp_ports : List P4Switch → List ℕ
tcp_ports [] = []
tcp_ports (s ∷ ss) =
    when_set_to (P4Switch.grpc_port s) (λ n. n)
    ++ (when_set_to (P4Switch.thrift_port s) (λ n. n) ++ tcp_ports ss)

-- The numbers with the tag `true`, and those with the tag `false`.
tagged : List (Bool × ℕ) → List ℕ
tagged [] = []
tagged ((true, n) ∷ ks) = n ∷ tagged ks
tagged ((false, n) ∷ ks) = tagged ks

untagged : List (Bool × ℕ) → List ℕ
untagged [] = []
untagged ((true, n) ∷ ks) = untagged ks
untagged ((false, n) ∷ ks) = n ∷ untagged ks

differs_tagged :
    (n : ℕ) (ks : List (Bool × ℕ)) → All (λ j. (true, n) ≢ j) ks ↔ All (λ m. n ≢ m) (tagged ks)
unfolding tagged
differs_tagged n [] = (λ _. tt, λ _. tt)
differs_tagged n ((true, m) ∷ ks) =
    let rest = differs_tagged n ks in
    (
      λ h. (λ same. h.0 (ap (λ x. (true, x)) same), rest.0 h.1),
      λ h. (λ same. h.0 (ap (λ j. j.1) same), rest.1 h.1),
    )
differs_tagged n ((false, m) ∷ ks) =
    let rest = differs_tagged n ks in
    (λ h. rest.0 h.1, λ h. (λ same. ground (arith, ap (λ j. j.0) same), rest.1 h))

differs_untagged :
    (n : ℕ) (ks : List (Bool × ℕ)) → All (λ j. (false, n) ≢ j) ks ↔ All (λ m. n ≢ m) (untagged ks)
unfolding untagged
differs_untagged n [] = (λ _. tt, λ _. tt)
differs_untagged n ((false, m) ∷ ks) =
    let rest = differs_untagged n ks in
    (
      λ h. (λ same. h.0 (ap (λ x. (false, x)) same), rest.0 h.1),
      λ h. (λ same. h.0 (ap (λ j. j.1) same), rest.1 h.1),
    )
differs_untagged n ((true, m) ∷ ks) =
    let rest = differs_untagged n ks in
    (λ h. rest.0 h.1, λ h. (λ same. ground (arith, ap (λ j. j.0) same), rest.1 h))

Distinct-by_tag :
    (ks : List (Bool × ℕ)) → Distinct ks ↔ (Distinct (untagged ks) × Distinct (tagged ks))
unfolding tagged untagged
Distinct-by_tag [] = (λ _. (tt, tt), λ _. tt)
Distinct-by_tag ((true, n) ∷ ks) =
    let rest = Distinct-by_tag ks in
    let here = differs_tagged n ks in
    (
      λ h. ((rest.0 h.1).0, (here.0 h.0, (rest.0 h.1).1)),
      λ (apart, all). (here.1 all.0, rest.1 (apart, all.1)),
    )
Distinct-by_tag ((false, n) ∷ ks) =
    let rest = Distinct-by_tag ks in
    let here = differs_untagged n ks in
    (
      λ h. ((here.0 h.0, (rest.0 h.1).0), (rest.0 h.1).1),
      λ (apart, all). (here.1 apart.0, rest.1 (apart.1, all)),
    )

untagged-claimed : (ss : List P4Switch) → untagged (claimed (service_claims ss)) ≡ device_ids ss
unfolding untagged claimed service_claims service_claim device_ids
untagged-claimed [] = refl
untagged-claimed (s ∷ ss) = ground (arith, untagged-claimed ss)

tagged-claimed : (ss : List P4Switch) → tagged (claimed (service_claims ss)) ≡ tcp_ports ss
unfolding tagged claimed service_claims service_claim tcp_ports
tagged-claimed [] = refl
tagged-claimed (s ∷ ss) = ground (arith, tagged-claimed ss)

service_claim-IsSound :
    (tcp : Bool) (name : Text) (field : PortField) (o : Option ℕ)
    → IsSound (service_claim tcp name field o)
unfolding IsSound service_claim
service_claim-IsSound tcp name field none = λ p. ground arith
service_claim-IsSound tcp name field (some n) = λ p. ground arith

service_claims-IsSound : (ss : List P4Switch) → All IsSound (service_claims ss)
unfolding service_claims
service_claims-IsSound [] = tt
service_claims-IsSound (s ∷ ss) = (
  service_claim-IsSound _ _ _ (P4Switch.device_id s),
  (
    service_claim-IsSound _ _ _ (P4Switch.grpc_port s),
    (service_claim-IsSound _ _ _ (P4Switch.thrift_port s), service_claims-IsSound ss),
  ),
)

-- The service ports are found sound exactly when no two switches have one device id and no TCP
-- port is used twice, be it as gRPC or as Thrift port, and by one switch or by two.
pub service_problems-iff-Distinct :
    (t : Topology)
    → (service_problems t ≡ []) ↔ (
        Distinct (device_ids (values (Topology.switches t)))
        × Distinct (tcp_ports (values (Topology.switches t))))
unfolding service_problems
service_problems-iff-Distinct t =
    let ss = values (Topology.switches t) in
    let items = service_claims ss in
    let found = collide_nothing_iff (λ key. service_collision key.1) [] items in
    let parts = Distinct-by_tag (claimed items) in
    (
      λ h.
          let (sound, distinct, fresh) = found.0 h in
          (
            subst Distinct (untagged-claimed ss) (parts.0 distinct).0,
            subst Distinct (tagged-claimed ss) (parts.0 distinct).1,
          ),
      λ (ids, ports). found.1 (
        service_claims-IsSound ss,
        parts.1 (
          subst Distinct (sym (untagged-claimed ss)) ids,
          subst Distinct (sym (tagged-claimed ss)) ports,
        ),
        absent_all (Text × PortField) (claimed items),
      ),
    )
