-- ===== src/Network/Durations.antt =====
-- The text that `_format_duration_ns` of src/p4net/network/orchestrator.py writes, read back by the
-- same file and checked by src/p4net/runtime/tc.py.
use p4net.Base.{
  ℕ, ◌+◌, ◌*◌, ◌/◌, ◌%◌, ◌^◌, ◌≡◌, ◌≢◌, ◌≤◌, ◌<◌, ◌↔◌, refl, sym, ap, subst, ◌∙◌, true, false, ◌&&◌,
  some, [], ◌∷◌, ◌++◌, All, leb, ◌==◌, ok, arith, Bool-cases, inl, inr,
}
use mathlib.Core.List.{reverse, reverse-append, reverse-reverse, append_assoc}
use p4net.Base.Text.{Text, is_space, codes, text_eq}
use p4net.Builtins.IntText.{strip, lstrip_space, decimal, AreDigits, decimal-AreDigits}
use p4net.Builtins.Quantity.{digit_char, split_quantity, IsUnit, split_quantity-append}
use p4net.Runtime.Tc.{valid_time, has_unit, time_units, unit_of, lower_case}
use p4net.Network.Directions.{
  Floats, duration_unit_ns, format_duration_ns, parse_duration_ns, add_durations,
}

-- A count and a unit that are worth `ns`, and whether the traffic control tool knows the unit.
record IsFormat (ns : ℕ) (text : Text) : Type 0 where
  count : ℕ
  unit : Text
  worth : ℕ
  written : text ≡ decimal count ++ unit
  is_unit : IsUnit unit
  known : duration_unit_ns unit ≡ some worth
  same : count * worth ≡ ns
  to_tc : (unit_of unit time_units ≡ true) ↔ ((1 ≤ ns) × (ns % 1000 ≡ 0))
  kept : lstrip_space unit ≡ unit
  ends : (front : Text) × (unit ≡ front ++ codes "s")

units : Unit {0}
unfolding duration_unit_ns unit_of lstrip_space text_eq lower_case
units = tt

-- A text whose unit the tool knows.
long_unit :
    (ns worth : ℕ) (unit : Text)
    → IsUnit unit
    → duration_unit_ns unit ≡ some worth
    → unit_of unit time_units ≡ true
    → lstrip_space unit ≡ unit
    → ((front : Text) × (unit ≡ front ++ codes "s"))
    → ns / worth * worth ≡ ns
    → (1 ≤ ns) × (ns % 1000 ≡ 0)
    → IsFormat ns (decimal (ns / worth) ++ unit)
long_unit ns worth unit is_unit known listed kept ends same thousands = record {
  count = ns / worth;
  unit = unit;
  worth = worth;
  written = refl;
  is_unit = is_unit;
  known = known;
  same = same;
  to_tc = (λ _. thousands, λ _. listed);
  kept = kept;
  ends = ends;
}

short_unit : (ns : ℕ) → ¬ ((1 ≤ ns) × (ns % 1000 ≡ 0)) → IsFormat ns (decimal ns ++ codes "ns")
unfolding units
short_unit ns odd = record {
  count = ns;
  unit = codes "ns";
  worth = 1;
  written = refl;
  is_unit = ground arith;
  known = refl;
  same = omega arith;
  to_tc = (λ e. cc, λ h. absurd (odd h));
  kept = refl;
  ends = (b'n' ∷ [], refl);
}

format_duration_ns-IsFormat : (ns : ℕ) → IsFormat ns (format_duration_ns ns)
unfolding format_duration_ns units
format_duration_ns-IsFormat ns = elim (Bool-cases (ns % 1000000000 == 0 && leb 1000000000 ns)) [
  | inl whole ↦ rw whole (
      long_unit ns 1000000000 (codes "s") (ground arith) refl refl refl ([], refl)
        (ground (arith, whole)) (ground (arith, whole)))
  | inr not_s ↦ elim (Bool-cases (ns % 1000000 == 0 && leb 1000000 ns)) [
    | inl whole ↦
        rw (not_s, whole)
          (long_unit ns 1000000 (codes "ms") (ground arith) refl refl refl (b'm' ∷ [], refl)
            (ground (arith, whole)) (ground (arith, whole)))
    | inr not_ms ↦ elim (Bool-cases (ns % 1000 == 0 && leb 1000 ns)) [
      | inl whole ↦
          rw (not_s, not_ms, whole)
            (long_unit ns 1000 (codes "us") (ground arith) refl refl refl (b'u' ∷ [], refl)
              (ground (arith, whole)) (ground (arith, whole)))
      | inr not_us ↦ rw (not_s, not_ms, not_us) (short_unit ns (λ h. ground (arith, h, not_us)))
    ]
  ]
]

digits_of : (ds : Text) → AreDigits ds → All (λ c. digit_char c ≡ true) ds
digits_of [] h = tt
digits_of (d ∷ ds) h = (ground (arith, h.0, h.1), digits_of ds h.2)

quantity_of :
    (ds unit : Text)
    → AreDigits ds
    → ds ≢ []
    → IsUnit unit
    → split_quantity (ds ++ unit) ≡ some (ds, unit)
quantity_of [] unit h some_digit is_unit = absurd (some_digit refl)
quantity_of (d ∷ ds) unit h some_digit is_unit =
    split_quantity-append d ds unit (digits_of (d ∷ ds) h) is_unit

-- The number and the unit of a formatted duration are read apart again.
format-split :
    (ns : ℕ) (text : Text) (f : IsFormat ns text)
    → split_quantity text ≡ some (decimal f.count, f.unit)
format-split ns text f =
    ap split_quantity f.written
    ∙ quantity_of (decimal f.count) f.unit (decimal-AreDigits f.count).0
        (decimal-AreDigits f.count).1 f.is_unit

valid_time_lem :
    (text : Text) (parts : Text × Text)
    → split_quantity text ≡ some parts
    → valid_time text ≡ unit_of parts.1 time_units
unfolding valid_time has_unit
valid_time_lem text parts e = rw (has_unit, e) refl

-- A formatted duration is one that the traffic control tool takes exactly when it is a positive
-- whole number of microseconds.
pub valid_time-format_duration_ns :
    (ns : ℕ) → (valid_time (format_duration_ns ns) ≡ true) ↔ ((1 ≤ ns) × (ns % 1000 ≡ 0))
valid_time-format_duration_ns ns =
    let f = format_duration_ns-IsFormat ns in
    ground (
      arith,
      valid_time_lem (format_duration_ns ns) (decimal f.count, f.unit)
          (format-split ns (format_duration_ns ns) f),
      f.to_tc,
    )

lstrip_space_lem : (c : ℕ) (s : Text) → is_space c ≡ false → lstrip_space (c ∷ s) ≡ c ∷ s
unfolding lstrip_space
lstrip_space_lem c s front = rw front refl

strip_lem : (s : Text) → strip s ≡ reverse (lstrip_space (reverse (lstrip_space s)))
unfolding strip
strip_lem s = refl

-- Nothing is stripped between two characters that are not white space.
strip_ends :
    (c z : ℕ) (m : Text)
    → is_space c ≡ false
    → is_space z ≡ false
    → strip ((c ∷ m) ++ (z ∷ [])) ≡ (c ∷ m) ++ (z ∷ [])
strip_ends c z m front last =
    strip_lem ((c ∷ m) ++ (z ∷ []))
    ∙ ap (λ t. reverse (lstrip_space (reverse t))) (lstrip_space_lem c (m ++ (z ∷ [])) front)
    ∙ ap (λ t. reverse (lstrip_space t)) (reverse-append (c ∷ m) (z ∷ []))
    ∙ ap reverse (lstrip_space_lem z (reverse (c ∷ m)) last)
    ∙ ap reverse (sym (reverse-append (c ∷ m) (z ∷ [])))
    ∙ reverse-reverse ((c ∷ m) ++ (z ∷ []))

strip_number :
    (ds front : Text)
    → AreDigits ds
    → ds ≢ []
    → strip (ds ++ (front ++ codes "s")) ≡ ds ++ (front ++ codes "s")
strip_number [] front h some_digit = absurd (some_digit refl)
strip_number (d ∷ ds) front h some_digit =
    subst (λ t. strip t ≡ t) (append_assoc (d ∷ ds) front (codes "s"))
      (strip_ends d b's' (ds ++ front) (ground (arith, h.0, h.1)) refl)

strip-format : (ns : ℕ) (text : Text) (f : IsFormat ns text) → strip text ≡ text
strip-format ns text f =
    let (front, ends) = f.ends in
    subst (λ t. strip t ≡ t) (sym (f.written ∙ ap (λ u. decimal f.count ++ u) ends))
      (strip_number (decimal f.count) front (decimal-AreDigits f.count).0
        (decimal-AreDigits f.count).1)

-- Numbers that a float holds exactly are scaled without rounding.
unfoldable pub IsExact : Floats → Type 0
IsExact floats = (k unit : ℕ) → k * unit < 2 ^ 53 → floats.scaled (decimal k) unit ≡ k * unit

module _ (floats : Floats) (exact : IsExact floats) where
  parse_duration_ns-format :
      (ns : ℕ) → ns < 2 ^ 53 → parse_duration_ns floats (format_duration_ns ns) ≡ ok ns
  unfolding parse_duration_ns IsExact
  parse_duration_ns-format ns small =
      let f = format_duration_ns-IsFormat ns in
      rw
        (
          strip-format ns (format_duration_ns ns) f,
          format-split ns (format_duration_ns ns) f,
          f.kept,
          f.known,
          exact f.count f.worth (rw f.same small),
          f.same,
        )
        refl

  -- The sum of two durations that are read as `a` and `b` nanoseconds, below 2 ** 53 together, is
  -- read as their sum. The traffic control tool takes its text exactly when the sum is a positive
  -- whole number of microseconds.
  pub add_durations-sum :
      (base extra : Text) (a b : ℕ)
      → parse_duration_ns floats base ≡ ok a
      → parse_duration_ns floats extra ≡ ok b
      → a + b < 2 ^ 53
      → (sum : Text) × (add_durations floats base extra ≡ ok sum)
        × (parse_duration_ns floats sum ≡ ok (a + b))
        × ((valid_time sum ≡ true) ↔ ((1 ≤ a + b) × ((a + b) % 1000 ≡ 0)))
  unfolding add_durations
  add_durations-sum base extra a b first second small = (
    format_duration_ns (a + b),
    rw (first, second) refl,
    parse_duration_ns-format (a + b) small,
    valid_time-format_duration_ns (a + b),
  )
