-- ===== src/Network/Directions.antt =====
-- The impairments of one direction of a link, in src/p4net/network/orchestrator.py. The rounding of
-- floats is a parameter.
use p4net.Base.{
  ℕ, ◌+◌, ◌*◌, ◌/◌, ◌%◌, ◌^◌, Bool, true, false, ◌&&◌, Option, none, some, [], ◌∷◌, ◌++◌, leb, ltb,
  ◌==◌, if◌then◌else◌, Result, ok, ◌>>=◌, ◌>>◌, raise_if, require, pos, negsuc,
}
use p4net.Base.Text.{Text, codes, text_eq}
use p4net.Builtins.IntText.{strip, lstrip_space, decimal}
use p4net.Builtins.Quantity.{split_quantity}
use p4net.Topo.Link.{Float, finite, infinite, nan, Link}
use p4net.Runtime.Tc.{Netem}

-- The exceptions of the resolution: ValueError, and TopologyError.
pub data ResolveError : Type 0 where
  bad_duration loss_total : ResolveError

-- The sum of two floats, and `round(float(magnitude) * unit)`.
pub record Floats : Type 0 where
  pub add : Float → Float → Float
  pub scaled : Text → ℕ → ℕ

unfoldable pub duration_unit_ns : Text → Option ℕ
duration_unit_ns u =
    if text_eq u (codes "ns")
    then some 1
    else if text_eq u (codes "us")
    then some 1000
    else if text_eq u (codes "ms")
    then some 1000000
    else if text_eq u (codes "s")
    then some 1000000000
    else none

unfoldable pub format_duration_ns : ℕ → Text
format_duration_ns ns =
    if ns % 1000000000 == 0 && leb 1000000000 ns
    then decimal (ns / 1000000000) ++ codes "s"
    else if ns % 1000000 == 0 && leb 1000000 ns
    then decimal (ns / 1000000) ++ codes "ms"
    else if ns % 1000 == 0 && leb 1000 ns
    then decimal (ns / 1000) ++ codes "us"
    else decimal ns ++ codes "ns"

-- `x > 100.0`
unfoldable pub above_hundred : Float → Bool
above_hundred (finite (pos m) e) = ltb (100 * 2 ^ e) m
above_hundred (finite (negsuc m) e) = false
above_hundred infinite = true
above_hundred nan = false

module _ (floats : Floats) where
  unfoldable pub parse_duration_ns : Text → Result ResolveError ℕ
  unfolding duration_unit_ns
  parse_duration_ns s = do
    parts ← require (split_quantity (strip s)) bad_duration
    unit ← require (duration_unit_ns (lstrip_space parts.1)) bad_duration
    ok (floats.scaled parts.0 unit)

  unfoldable pub add_durations : Text → Text → Result ResolveError Text
  unfolding parse_duration_ns
  add_durations base extra = do
    a ← parse_duration_ns base
    b ← parse_duration_ns extra
    ok (format_duration_ns (a + b))

  abbrev pub per_or_sym : {A : Type 0} → Option A → Option A → Option A
  per_or_sym sym none = sym
  per_or_sym sym (some per) = some per

  unfoldable pub resolve_dir_str :
      Option Text → Option Text → Option Text → Result ResolveError (Option Text)
  resolve_dir_str (some sym) per (some extra) = do sum ← add_durations sym extra; ok (some sum)
  resolve_dir_str sym per extra = ok (per_or_sym sym per)

  unfoldable pub resolve_dir_loss :
      Option Float → Option Float → Option Float → Result ResolveError (Option Float)
  unfolding above_hundred
  resolve_dir_loss (some sym) per (some extra) = do
    raise_if (above_hundred (floats.add sym extra)) loss_total
    ok (some (floats.add sym extra))
  resolve_dir_loss sym per extra = ok (per_or_sym sym per)

  -- An empty rate is falsy.
  unfoldable pub rate_or : Option Text → Option Text → Option Text
  rate_or none sym = sym
  rate_or (some []) sym = sym
  rate_or (some (c ∷ s)) sym = some (c ∷ s)

  unfoldable pub resolved :
      Option Text
      → Option Text
      → Option Text
      → Option Text
      → Option Text
      → Option Text
      → Option Text
      → Option Text
      → Option Float
      → Option Float
      → Option Float
      → Result ResolveError Netem
  unfolding resolve_dir_str resolve_dir_loss rate_or
  resolved rate per_rate delay per_delay extra_delay jitter per_jitter extra_jitter loss per_loss
        extra_loss =
      do
        d ← resolve_dir_str delay per_delay extra_delay
        j ← resolve_dir_str jitter per_jitter extra_jitter
        l ← resolve_dir_loss loss per_loss extra_loss
        ok (record { rate = rate_or per_rate rate; delay = d; jitter = j; loss_pct = l })

  -- `true` is the direction from a to b.
  unfoldable pub direction_params : Link → Bool → Result ResolveError Netem
  unfolding resolved
  direction_params link true =
      let o = link.options in
      resolved o.bandwidth o.bandwidth_a_to_b o.delay o.delay_a_to_b o.delay_a_to_b_extra o.jitter
        o.jitter_a_to_b o.jitter_a_to_b_extra o.loss_pct o.loss_pct_a_to_b o.loss_pct_a_to_b_extra
  direction_params link false =
      let o = link.options in
      resolved o.bandwidth o.bandwidth_b_to_a o.delay o.delay_b_to_a o.delay_b_to_a_extra o.jitter
        o.jitter_b_to_a o.jitter_b_to_a_extra o.loss_pct o.loss_pct_b_to_a o.loss_pct_b_to_a_extra
