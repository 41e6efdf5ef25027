-- ===== src/Control/Codec/Macs.antt =====
-- MAC addresses: what the pattern accepts is encoded to six bytes, and printing is undone by
-- encoding.
use p4net.Base.{
  ℕ, zero, suc, ◌+◌, ◌-◌, ◌*◌, ◌/◌, ◌%◌, ◌≤◌, ◌<◌, ◌≡◌, refl, ap, sym, ◌∙◌, inl, inr, true, false,
  some, List, [], ◌∷◌, map, arith, leb, length, All, Bool-cases, pos, if◌then◌else◌, ok, >>=-eq-ok,
  ok_inj,
}
use p4net.Base.Text.{Text, split, join, is_space, codes}
use p4net.Builtins.Bytes.{IsByte}
use p4net.Builtins.IntText.{parse_int, strip, digit_value, parse_hex_pair}
use p4net.Control.Codec.Canonical.{padded, padded-IsByte, padded_size, zero_extend-ok}
use p4net.Control.Codec.{
  bytes, is_hex, mac_groups, mac_re, hex_bytes, encode_mac, decode_mac, hex_char, hex2, zero_extend,
}

-- The value of a hexadecimal digit.
abbrev pub hex_val : ℕ → ℕ
hex_val c = if leb c b'9' then c - 48 else if leb c b'F' then c - 55 else c - 87

hex_digit_value : (c : ℕ) → is_hex c ≡ true → digit_value 16 c ≡ some (hex_val c)
unfolding digit_value
hex_digit_value c h = ground arith

hex_val-lt : (c : ℕ) → is_hex c ≡ true → hex_val c < 16
hex_val-lt c h = ground arith

hex_not_space : (c : ℕ) → is_hex c ≡ true → is_space c ≡ false
hex_not_space c h = ground arith

module _ (c d : ℕ) (hc : is_hex c ≡ true) (hd : is_hex d ≡ true) where
  strip_pair : strip (c ∷ d ∷ []) ≡ c ∷ d ∷ []
  unfolding strip
  strip_pair = simp (hex_not_space c hc, hex_not_space d hd)

  strip_newline : strip (c ∷ d ∷ 10 ∷ []) ≡ c ∷ d ∷ []
  unfolding strip
  strip_newline = simp (hex_not_space c hc, hex_not_space d hd)

  parse_stripped :
      (s : Text) → strip s ≡ c ∷ d ∷ [] → parse_int 16 s ≡ some (pos (hex_val c * 16 + hex_val d))
  parse_stripped s e =
      parse_hex_pair s c d (hex_val c) (hex_val d) e (hex_digit_value c hc) (hex_digit_value d hd)
        (ground arith, ground arith, ground arith, ground arith, ground arith, ground arith)

  -- One group of the pattern, and the last one with the newline that `$` lets pass.
  hex_bytes_group :
      (ts : List Text) (ns : List ℕ)
      → hex_bytes ts ≡ some ns
      → hex_bytes ((c ∷ d ∷ []) ∷ ts) ≡ some ((hex_val c * 16 + hex_val d) ∷ ns)
  unfolding hex_bytes
  hex_bytes_group ts ns e = rw (parse_stripped (c ∷ d ∷ []) strip_pair, hex_bytes, e)

  hex_bytes_newline : hex_bytes ((c ∷ d ∷ 10 ∷ []) ∷ []) ≡ some ((hex_val c * 16 + hex_val d) ∷ [])
  unfolding hex_bytes
  hex_bytes_newline = rw (parse_stripped (c ∷ d ∷ 10 ∷ []) strip_newline, hex_bytes)

  split_pair : split b':' (c ∷ d ∷ []) ≡ (c ∷ d ∷ []) ∷ []
  unfolding split
  split_pair = ground arith

  split_newline : split b':' (c ∷ d ∷ 10 ∷ []) ≡ (c ∷ d ∷ 10 ∷ []) ∷ []
  unfolding split
  split_newline = ground arith

  split_group : (s : Text) → split b':' (c ∷ d ∷ b':' ∷ s) ≡ (c ∷ d ∷ []) ∷ split b':' s
  unfolding split
  split_group s = ground arith

-- The text splits into `suc k` parts, each of them the hexadecimal digits of a byte.
abbrev IsParsed : ℕ → Text → Type 0
IsParsed k s =
    (ns : List ℕ) × (hex_bytes (split b':' s) ≡ some ns) × (length ns ≡ suc k) × All IsByte ns

module _ (c d : ℕ) (hc : is_hex c ≡ true) (hd : is_hex d ≡ true) where
  pair-IsByte : IsByte (hex_val c * 16 + hex_val d)
  pair-IsByte = omega (arith, hex_val-lt c hc, hex_val-lt d hd)

  pair-IsParsed : IsParsed zero (c ∷ d ∷ [])
  pair-IsParsed = (
    (hex_val c * 16 + hex_val d) ∷ [],
    rw (split_pair c d hc hd) (hex_bytes_group c d hc hd [] [] (unfold hex_bytes in refl)),
    refl,
    (pair-IsByte, tt),
  )

  newline-IsParsed : (e : ℕ) → e ≡ 10 → IsParsed zero (c ∷ d ∷ e ∷ [])
  newline-IsParsed e newline = (
    (hex_val c * 16 + hex_val d) ∷ [],
    rw (newline, split_newline c d hc hd) (hex_bytes_newline c d hc hd),
    refl,
    (pair-IsByte, tt),
  )

  group-IsParsed : (k e : ℕ) (s : Text) → e ≡ b':' → IsParsed k s → IsParsed (suc k) (c ∷ d ∷ e ∷ s)
  group-IsParsed k e s colon (ns, parsed, size, small) = (
    (hex_val c * 16 + hex_val d) ∷ ns,
    rw (colon, split_group c d hc hd s) (hex_bytes_group c d hc hd _ ns parsed),
    ap suc size,
    (pair-IsByte, small),
  )

mac_groups-IsParsed : (k : ℕ) (s : Text) → mac_groups k s ≡ true → IsParsed k s
unfolding mac_groups
mac_groups-IsParsed zero [] h = cc
mac_groups-IsParsed zero (c ∷ []) h = cc
mac_groups-IsParsed zero (c ∷ d ∷ []) h = pair-IsParsed c d (ground arith) (ground arith)
mac_groups-IsParsed zero (c ∷ d ∷ e ∷ []) h =
    newline-IsParsed c d (ground arith) (ground arith) e (ground arith)
mac_groups-IsParsed zero (c ∷ d ∷ e ∷ f ∷ s) h = cc
mac_groups-IsParsed (suc k) [] h = cc
mac_groups-IsParsed (suc k) (c ∷ []) h = cc
mac_groups-IsParsed (suc k) (c ∷ d ∷ []) h = cc
mac_groups-IsParsed (suc k) (c ∷ d ∷ e ∷ s) h =
    group-IsParsed c d (ground arith) (ground arith) k e s (ground arith)
      (mac_groups-IsParsed k s (ground arith))

-- Every text that the pattern accepts is encoded, to exactly six bytes.
pub encode_mac_total :
    (s : Text)
    → mac_re s ≡ true
    → (bs : List ℕ) × (encode_mac s ≡ ok bs) × (length bs ≡ 6) × All IsByte bs
unfolding encode_mac
encode_mac_total s h =
    let (bs, parsed, size, small) = mac_groups-IsParsed 5 s h in (bs, rw (h, parsed), size, small)

pub encode_mac_bytes :
    (s : Text) (bs : List ℕ) → encode_mac s ≡ ok bs → (length bs ≡ 6) × All IsByte bs
unfolding encode_mac
encode_mac_bytes s bs e = elim (Bool-cases (mac_re s)) [
  | inl h ↦
      let (ns, parsed, size, small) = mac_groups-IsParsed 5 s h in
      let same : ns ≡ bs = ground arith in rw (← same) (size, small)
  | inr h ↦ ground arith
]

hex_char_hex : (d : ℕ) → d < 16 → (is_hex (hex_char d) ≡ true) × (hex_val (hex_char d) ≡ d)
hex_char_hex d h = (ground arith, ground arith)

module _ (n : ℕ) (small : IsByte n) where
  high_is_hex : is_hex (hex_char (n / 16)) ≡ true
  high_is_hex = (hex_char_hex (n / 16) (omega arith)).0

  low_is_hex : is_hex (hex_char (n % 16)) ≡ true
  low_is_hex = (hex_char_hex (n % 16) (omega arith)).0

  hex2_value : hex_val (hex_char (n / 16)) * 16 + hex_val (hex_char (n % 16)) ≡ n
  hex2_value =
      omega
        (arith, (hex_char_hex (n / 16) (omega arith)).1, (hex_char_hex (n % 16) (omega arith)).1)

  hex_bytes-hex2 :
      (ts : List Text) (ns : List ℕ)
      → hex_bytes ts ≡ some ns
      → hex_bytes (hex2 n ∷ ts) ≡ some (n ∷ ns)
  hex_bytes-hex2 ts ns e =
      hex_bytes_group _ _ high_is_hex low_is_hex ts ns e ∙ ap (λ v. some (v ∷ ns)) hex2_value

-- The printed form of a non-empty run of bytes is accepted, and parses back.
printed :
    (k : ℕ) (ns : List ℕ)
    → length ns ≡ suc k
    → All IsByte ns
    → (mac_groups k (join (codes ":") (map hex2 ns)) ≡ true)
      × (hex_bytes (split b':' (join (codes ":") (map hex2 ns))) ≡ some ns)
unfolding mac_groups join
printed k [] size small = absurd (omega arith)
printed zero (n ∷ []) size (b, _) = (
  rw (high_is_hex n b, low_is_hex n b),
  rw (split_pair _ _ (high_is_hex n b) (low_is_hex n b))
      (hex_bytes-hex2 n b [] [] (unfold hex_bytes in refl)),
)
printed zero (n ∷ m ∷ ns) size small = absurd (omega arith)
printed (suc k) (n ∷ []) size small = absurd (omega arith)
printed (suc k) (n ∷ m ∷ ns) size (b, small) =
    let (matched, parsed) = printed k (m ∷ ns) (omega arith) small in
    (
      rw (high_is_hex n b, low_is_hex n b) matched,
      rw (split_group _ _ (high_is_hex n b) (low_is_hex n b) (join (codes ":") (map hex2 (m ∷ ns))))
          (hex_bytes-hex2 n b _ (m ∷ ns) parsed),
    )

-- Printing a byte string of at most six bytes as a MAC address and encoding the text gives the
-- six bytes back: the same bytes, padded on the high side.
pub encode_mac-decode_mac :
    (bs : List ℕ) (s : Text)
    → All IsByte bs
    → decode_mac (bytes bs) ≡ ok s
    → (length bs ≤ 6) × (encode_mac s ≡ ok (padded bs 48))
unfolding decode_mac encode_mac
encode_mac-decode_mac bs s digits e =
    let (out, extended, printed_out) = >>=-eq-ok (zero_extend bs 48) _ e in
    let (short, same) = zero_extend-ok bs out 48 extended in
    let (matched, parsed) =
      printed 5 (padded bs 48) (padded_size bs 48 short) (padded-IsByte bs 48 digits) in
    let text : join (codes ":") (map hex2 (padded bs 48)) ≡ s =
      ap (λ ns. join (codes ":") (map hex2 ns)) (sym same) ∙ ok_inj printed_out in
    (short, rw (← text) (rw (matched, parsed)))
