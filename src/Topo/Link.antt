-- ===== src/Topo/Link.antt =====
-- src/p4net/topo/link.py: the checks of a link and of its two endpoints.
use p4net.Base.{
  ℕ, ◌*◌, ◌^◌, Bool, true, false, not, ◌&&◌, ◌||◌, Option, none, ltb, leb, Result, err, ok,
  raise_if, ◌>>◌, ℤ, pos, negsuc,
}
use p4net.Base.Text.{Text}
use p4net.Topo.Names.{
  TopologyError, invalid_mac, invalid_ip6, negative_port, empty_node, not_finite, both_forms,
  jitter_without_delay, loss_out_of_range, extra_with_override, extra_without_base, negative_extra,
  mtu_out_of_range, mac_fullmatch, is_empty,
}
use p4net.Topo.Nodes.{is_some, when_set, plain_ip6}

-- A Python number: `finite m e` is m / 2 ** e, which every finite float and int is. An int that
-- `math.isfinite` cannot convert counts as `infinite`.
pub data Float : Type 0 where
  finite : ℤ → ℕ → Float
  infinite : Float
  nan : Float

unfoldable pub is_finite : Float → Bool
is_finite (finite m e) = true
is_finite infinite = false
is_finite nan = false

-- `0.0 <= x`
unfoldable pub non_negative : Float → Bool
non_negative (finite (pos m) e) = true
non_negative (finite (negsuc m) e) = false
non_negative infinite = false
non_negative nan = false

-- `0.0 <= x <= 100.0`
unfoldable pub in_percent : Float → Bool
in_percent (finite (pos m) e) = leb m (100 * 2 ^ e)
in_percent (finite (negsuc m) e) = false
in_percent infinite = false
in_percent nan = false

unfoldable pub validate_port_number : ℤ → Result TopologyError ℕ
validate_port_number (pos n) = ok n
validate_port_number (negsuc n) = err negative_port

pub record LinkEndpoint : Type 0 where
  pub node : Text
  pub port : Option ℕ
  pub iface_name : Option Text
  pub ip : Option Text
  pub mac : Option Text
  pub ip6 : Option Text

-- `LinkEndpoint.__post_init__`; the port is a natural number already.
unfoldable pub check_endpoint : LinkEndpoint → Result TopologyError (Unit {0})
check_endpoint e = do
  raise_if (when_set (LinkEndpoint.mac e) (λ m. not (mac_fullmatch m))) invalid_mac
  raise_if (when_set (LinkEndpoint.ip6 e) (λ a. not (plain_ip6 a))) invalid_ip6

-- `LinkEndpoint(...)` of the fields of `e`.
unfoldable pub new_endpoint : LinkEndpoint → Result TopologyError LinkEndpoint
new_endpoint e = check_endpoint e >> ok e

-- The keyword fields of `Link`.
pub record LinkOptions : Type 0 where
  pub bandwidth : Option Text
  pub delay : Option Text
  pub jitter : Option Text
  pub loss_pct : Option Float
  pub mtu : Option ℤ
  pub bandwidth_a_to_b : Option Text
  pub bandwidth_b_to_a : Option Text
  pub delay_a_to_b : Option Text
  pub delay_b_to_a : Option Text
  pub jitter_a_to_b : Option Text
  pub jitter_b_to_a : Option Text
  pub loss_pct_a_to_b : Option Float
  pub loss_pct_b_to_a : Option Float
  pub delay_a_to_b_extra : Option Text
  pub delay_b_to_a_extra : Option Text
  pub jitter_a_to_b_extra : Option Text
  pub jitter_b_to_a_extra : Option Text
  pub loss_pct_a_to_b_extra : Option Float
  pub loss_pct_b_to_a_extra : Option Float

pub record Link : Type 0 where
  pub a : LinkEndpoint
  pub b : LinkEndpoint
  pub options : LinkOptions

unfoldable pub check_finite : Option Float → Result TopologyError (Unit {0})
check_finite x = raise_if (when_set x (λ v. not (is_finite v))) not_finite

-- A symmetric field and a field of one direction exclude each other.
unfoldable pub check_form :
    {A : Type 0} → Option A → Option A → Option A → Result TopologyError (Unit {0})
check_form sym ab ba = raise_if (is_some sym && (is_some ab || is_some ba)) both_forms

unfoldable pub check_percent : Option Float → Result TopologyError (Unit {0})
check_percent x = raise_if (when_set x (λ v. not (in_percent v))) loss_out_of_range

-- An extra needs the symmetric base and no override of its direction.
unfoldable pub check_extra :
    {A : Type 0} → Option A → Option A → Option A → Result TopologyError (Unit {0})
check_extra sym per extra = do
  raise_if (is_some extra && is_some per) extra_with_override
  raise_if (is_some extra && not (is_some sym)) extra_without_base

unfoldable pub check_jitter :
    Option Text → Option Text → Option Text → Result TopologyError (Unit {0})
check_jitter jitter per_delay delay =
    raise_if (is_some jitter && (not (is_some per_delay) && not (is_some delay)))
      jitter_without_delay

unfoldable pub mtu_outside : ℤ → Bool
mtu_outside (pos n) = ltb n 68 || ltb 65535 n
mtu_outside (negsuc n) = true

unfoldable pub check_options : LinkOptions → Result TopologyError (Unit {0})
unfolding check_finite check_form check_percent check_extra check_jitter mtu_outside
check_options o = do
  check_finite (LinkOptions.loss_pct o)
  check_finite (LinkOptions.loss_pct_a_to_b o)
  check_finite (LinkOptions.loss_pct_b_to_a o)
  check_finite (LinkOptions.loss_pct_a_to_b_extra o)
  check_finite (LinkOptions.loss_pct_b_to_a_extra o)
  check_form (LinkOptions.bandwidth o) (LinkOptions.bandwidth_a_to_b o)
      (LinkOptions.bandwidth_b_to_a o)
  check_form (LinkOptions.delay o) (LinkOptions.delay_a_to_b o) (LinkOptions.delay_b_to_a o)
  check_form (LinkOptions.jitter o) (LinkOptions.jitter_a_to_b o) (LinkOptions.jitter_b_to_a o)
  check_form (LinkOptions.loss_pct o) (LinkOptions.loss_pct_a_to_b o)
      (LinkOptions.loss_pct_b_to_a o)
  check_jitter (LinkOptions.jitter o) none (LinkOptions.delay o)
  check_jitter (LinkOptions.jitter_a_to_b o) (LinkOptions.delay_a_to_b o) (LinkOptions.delay o)
  check_jitter (LinkOptions.jitter_b_to_a o) (LinkOptions.delay_b_to_a o) (LinkOptions.delay o)
  check_percent (LinkOptions.loss_pct o)
  check_percent (LinkOptions.loss_pct_a_to_b o)
  check_percent (LinkOptions.loss_pct_b_to_a o)
  check_extra (LinkOptions.delay o) (LinkOptions.delay_a_to_b o) (LinkOptions.delay_a_to_b_extra o)
  check_extra (LinkOptions.delay o) (LinkOptions.delay_b_to_a o) (LinkOptions.delay_b_to_a_extra o)
  check_extra (LinkOptions.jitter o) (LinkOptions.jitter_a_to_b o)
      (LinkOptions.jitter_a_to_b_extra o)
  check_extra (LinkOptions.jitter o) (LinkOptions.jitter_b_to_a o)
      (LinkOptions.jitter_b_to_a_extra o)
  check_extra (LinkOptions.loss_pct o) (LinkOptions.loss_pct_a_to_b o)
      (LinkOptions.loss_pct_a_to_b_extra o)
  check_extra (LinkOptions.loss_pct o) (LinkOptions.loss_pct_b_to_a o)
      (LinkOptions.loss_pct_b_to_a_extra o)
  raise_if (when_set (LinkOptions.loss_pct_a_to_b_extra o) (λ v. not (non_negative v)))
      negative_extra
  raise_if (when_set (LinkOptions.loss_pct_b_to_a_extra o) (λ v. not (non_negative v)))
      negative_extra
  raise_if (when_set (LinkOptions.mtu o) mtu_outside) mtu_out_of_range
  ok tt

-- `Link.__post_init__`
unfoldable pub check_link : Link → Result TopologyError (Unit {0})
check_link l = do
  raise_if (is_empty (LinkEndpoint.node (Link.a l))) empty_node
  raise_if (is_empty (LinkEndpoint.node (Link.b l))) empty_node
  check_options (Link.options l)

-- `Link(...)` of the fields of `l`.
unfoldable pub new_link : Link → Result TopologyError Link
new_link l = check_link l >> ok l
