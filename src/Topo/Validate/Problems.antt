-- ===== src/Topo/Validate/Problems.antt =====
-- The lines that `Topology.validate` collects, and the loops that look for a second owner.
-- A problem carries what its message prints.
use p4net.Base.{ℕ, suc, Bool, true, false, Option, none, some, List, [], ◌∷◌}
use p4net.Base.Text.{Text}
use p4net.Base.Dict.{Eq, Dict, lookup, insert}
use p4net.Topo.Names.{IfnameError}
use p4net.Topo.Link.{Link, LinkEndpoint}

pub data Kind : Type 0 where
  host_kind : Kind
  switch_kind : Kind

-- An end of a link: the link's number, which end, and the endpoint.
pub data Which : Type 0 where
  end_a : Which
  end_b : Which

pub record End : Type 0 where
  pub link : ℕ
  pub which : Which
  pub endpoint : LinkEndpoint

pub data PortField : Type 0 where
  device_id_field : PortField
  grpc_field : PortField
  thrift_field : PortField

-- One line of the message.
pub data Problem : Type 0 where
  key_mismatch : Kind → Text → Text → Problem
  used_by_both : Text → Problem
  unknown_node : End → Problem
  no_port : End → Problem
  ip_on_switch : End → Text → Problem
  ip6_on_switch : End → Text → Problem
  port_out_of_range : End → ℕ → Problem
  uses_cpu_port : End → ℕ → Problem
  self_loop : ℕ → Text → Problem
  port_collision : Text × ℕ → ℕ → ℕ → Problem
  service_collision : ℕ → Text × PortField → Text × PortField → Problem
  no_interface : End → Problem
  bad_interface : End → IfnameError → Problem
  reserved_lo : End → Problem
  interface_collision : Option Text × Text → End → End → Problem
  invalid_endpoint_ip : Text → Text → Problem
  invalid_endpoint_ip6 : Text → Text → Problem
  ip_shared : List ℕ → List Text → Problem
  ip6_shared : ℕ → List Text → Problem

abbrev pub when : Bool → Problem → List Problem
when false p = []
when true p = p ∷ []

abbrev pub when_some : {A : Type 0} → Option A → (A → Problem) → List Problem
when_some none f = []
when_some (some a) f = f a ∷ []

-- What an item of a loop adds: a problem of its own, nothing, or a key that it claims.
pub data Claim (K O : Type 0) : Type 0 where
  problem : Problem → Claim K O
  skip : Claim K O
  claims : K → O → Claim K O

module _ {K O : Type 0} ⦃e : Eq K⦄ (collision : K → O → O → Problem) where
  -- The first claim of a key owns it: `if key in owners: errors.append(...) else: owners[key] = owner`.
  -- The owner comes before the later claim.
  unfoldable pub collide : Dict K O → List (Claim K O) → List Problem
  collide owners [] = []
  collide owners (problem p ∷ items) = p ∷ collide owners items
  collide owners (skip ∷ items) = collide owners items
  collide owners (claims k o ∷ items) = elim (lookup k owners) [
    | some first ↦ collision k first o ∷ collide owners items
    | none ↦ collide (insert k o owners) items
  ]

-- The ends of the links from number `i` on, `a` before `b`.
unfoldable pub ends : ℕ → List Link → List End
ends i [] = []
ends i (l ∷ ls) =
    record { link = i; which = end_a; endpoint = Link.a l }
    ∷ record { link = i; which = end_b; endpoint = Link.b l }
    ∷ ends (suc i) ls
