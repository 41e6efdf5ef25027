-- ===== src/Network/Examples.antt =====
-- Durations, and the theorems on the network at concrete inputs.
use p4net.Base.{◌+◌, ◌*◌, ◌%◌, ◌≤◌, ◌≡◌, ◌↔◌, refl, ap, none, some, true, false, ok, arith}
use p4net.Base.Text.{Text, codes, text_eq}
use p4net.Builtins.IntText.{digits, digit_value, strip, lstrip_space, decimal, digits-decimal}
use p4net.Builtins.Quantity.{take_digits, after_whole, split_quantity}
use p4net.Runtime.Tc.{valid_time, has_unit, unit_of, lower_case}
use p4net.Network.Directions.{
  Floats, duration_unit_ns, format_duration_ns, parse_duration_ns, add_durations,
}
use p4net.Network.Durations.{IsExact, add_durations-sum}

durations : Unit {0}
unfolding text_eq digits digit_value strip lstrip_space decimal take_digits after_whole
    split_quantity valid_time has_unit unit_of lower_case duration_unit_ns format_duration_ns
    parse_duration_ns add_durations
durations = tt

-- Floats that hold whole numbers.
abbrev whole : Floats
whole = record {
  add = λ x y. x;
  scaled = λ t unit. (elim (digits 10 true 0 t) [ none ↦ 0 | some n ↦ n ]) * unit;
}

whole-IsExact : IsExact whole
unfolding IsExact
whole-IsExact k unit small = ap (λ d. (elim d [ none ↦ 0 | some n ↦ n ]) * unit) (digits-decimal k)

first_read : parse_duration_ns whole (codes " 3 us") ≡ ok 3000
unfolding durations
first_read = refl

second_read : parse_duration_ns whole (codes "500ns") ≡ ok 500
unfolding durations
second_read = refl

add_durations-sum_example :
    (sum : Text) × (add_durations whole (codes " 3 us") (codes "500ns") ≡ ok sum)
    × (parse_duration_ns whole sum ≡ ok (3000 + 500))
    × ((valid_time sum ≡ true) ↔ ((1 ≤ 3000 + 500) × ((3000 + 500) % 1000 ≡ 0)))
add_durations-sum_example =
    add_durations-sum whole whole-IsExact (codes " 3 us") (codes "500ns") 3000 500 first_read
      second_read (omega arith)

-- Two delays that the traffic control tool takes, and their sum, which it does not.
zero_sum : add_durations whole (codes "0ms") (codes "0ms") ≡ ok (codes "0ns")
unfolding durations
zero_sum = refl

zero_refused : valid_time (codes "0ns") ≡ false
unfolding durations
zero_refused = refl

zero_taken : valid_time (codes "0ms") ≡ true
unfolding durations
zero_taken = refl
