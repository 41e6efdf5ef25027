-- ===== src/Runtime/Tc.antt =====
-- src/p4net/runtime/tc.py: the checks of `apply_netem` and its command line. How Python prints a
-- float is a parameter.
use p4net.Base.{
  ◌+◌, Bool, false, not, ◌&&◌, ◌||◌, Option, none, some, List, [], ◌∷◌, ◌++◌, leb, if◌then◌else◌,
  Result, ok, ◌>>◌, raise_if,
}
use p4net.Base.Text.{Text, codes, text_eq}
use p4net.Builtins.Quantity.{split_quantity}
use p4net.Topo.Nodes.{is_some, when_set}
use p4net.Topo.Link.{Float, in_percent}

pub data TcError : Type 0 where
  nothing_to_apply jitter_without_delay bad_rate bad_delay bad_jitter bad_loss : TcError

-- The members of a list of units, in any case.
unfoldable pub lower_case : Text → Text
lower_case [] = []
lower_case (c ∷ s) = (if leb b'A' c && leb c b'Z' then c + 32 else c) ∷ lower_case s

unfoldable pub unit_of : Text → List Text → Bool
unfolding lower_case
unit_of s [] = false
unit_of s (u ∷ us) = text_eq (lower_case s) u || unit_of s us

abbrev pub time_units : List Text
time_units = codes "s" ∷ codes "ms" ∷ codes "us" ∷ []

abbrev rate_units : List Text
rate_units =
    codes "bit"
    ∷ codes "kbit"
    ∷ codes "mbit"
    ∷ codes "gbit"
    ∷ codes "tbit"
    ∷ codes "bps"
    ∷ codes "kbps"
    ∷ codes "mbps"
    ∷ codes "gbps"
    ∷ codes "tbps"
    ∷ []

unfoldable pub has_unit : List Text → Text → Bool
unfolding unit_of
has_unit units s = elim (split_quantity s) [ none ↦ false | some parts ↦ unit_of parts.1 units ]

-- `_validate_time` does not raise.
unfoldable pub valid_time : Text → Bool
unfolding has_unit
valid_time s = has_unit time_units s

-- `_validate_rate` does not raise.
unfoldable pub valid_rate : Text → Bool
unfolding has_unit
valid_rate s = has_unit rate_units s

-- The keyword arguments of `apply_netem`.
pub record Netem : Type 0 where
  pub rate : Option Text
  pub delay : Option Text
  pub jitter : Option Text
  pub loss_pct : Option Float

unfoldable pub is_clear : Netem → Bool
is_clear n =
    not (is_some n.rate)
    && not (is_some n.delay)
    && not (is_some n.jitter)
    && not (is_some n.loss_pct)

unfoldable pub check_netem : Netem → Result TcError (Unit {0})
unfolding is_clear valid_time valid_rate
check_netem n = do
  raise_if (is_clear n) nothing_to_apply
  raise_if (is_some n.jitter && not (is_some n.delay)) jitter_without_delay
  raise_if (when_set n.rate (λ r. not (valid_rate r))) bad_rate
  raise_if (when_set n.delay (λ d. not (valid_time d))) bad_delay
  raise_if (when_set n.jitter (λ j. not (valid_time j))) bad_jitter
  raise_if (when_set n.loss_pct (λ x. not (in_percent x))) bad_loss

abbrev delay_args : Option Text → Option Text → List Text
delay_args none jitter = []
delay_args (some d) none = codes "delay" ∷ d ∷ []
delay_args (some d) (some j) = codes "delay" ∷ d ∷ j ∷ []

abbrev rate_args : Option Text → List Text
rate_args none = []
rate_args (some r) = codes "rate" ∷ r ∷ []

module _ (show_float : Float → Text) where
  abbrev loss_args : Option Float → List Text
  loss_args none = []
  loss_args (some x) = codes "loss" ∷ (show_float x ++ codes "%") ∷ []

  -- The command that `apply_netem` runs.
  unfoldable pub netem_argv : Text → Netem → Result TcError (List Text)
  unfolding check_netem
  netem_argv iface n = do
    check_netem n
    ok (
        codes "tc"
        ∷ codes "qdisc"
        ∷ codes "replace"
        ∷ codes "dev"
        ∷ iface
        ∷ codes "root"
        ∷ codes "netem"
        ∷ (delay_args n.delay n.jitter ++ (loss_args n.loss_pct ++ rate_args n.rate)))
