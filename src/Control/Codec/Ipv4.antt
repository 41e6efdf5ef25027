-- ===== src/Control/Codec/Ipv4.antt =====
-- Dotted IPv4 text: printing four bytes and parsing the text gives the bytes back.
use p4net.Base.{
  ℕ, zero, suc, ◌≤◌, ◌<◌, ◌≡◌, refl, ap, sym, ◌∙◌, Bool, true, false, not, ◌&&◌, none, some, List,
  [], ◌∷◌, arith, ◌==◌, length, All, ok, >>=-eq-ok, ok_inj,
}
use p4net.Base.Text.{Text, codes, split, join, has, split-append, split_whole}
use p4net.Builtins.Bytes.{IsByte}
use p4net.Builtins.IntText.{decimal}
use p4net.Builtins.Address.{parse_octet, octets, octet_texts, ipv4_packed, ipv4_text}
use p4net.Control.Codec.Canonical.{padded, padded-IsByte, padded_size, zero_extend-ok}
use p4net.Control.Codec.{bytes, encode_ipv4, decode_ipv4, zero_extend}

-- Over a small range, check every value by evaluation.
holds_below : ℕ → (ℕ → Bool) → Bool
holds_below zero test = true
holds_below (suc n) test = test n && holds_below n test

holds_below→ : (n : ℕ) (test : ℕ → Bool) (x : ℕ) → holds_below n test ≡ true → x < n → test x ≡ true
unfolding holds_below
holds_below→ zero test x h lt = absurd (omega arith)
holds_below→ (suc n) test x h lt = ground (arith, holds_below→ n test x)

reads_back : ℕ → Bool
reads_back b =
    (elim (parse_octet (decimal b)) [ none ↦ false | some n ↦ n == b ])
    && not (has b'.' (decimal b))

bytes_read_back : holds_below 256 reads_back ≡ true
unfolding holds_below reads_back parse_octet decimal has
bytes_read_back = refl

reads_back→ :
    (b : ℕ)
    → reads_back b ≡ true
    → (parse_octet (decimal b) ≡ some b) × (has b'.' (decimal b) ≡ false)
unfolding reads_back
reads_back→ b h = (ground arith, ground arith)

octet-decimal :
    (b : ℕ) → IsByte b → (parse_octet (decimal b) ≡ some b) × (has b'.' (decimal b) ≡ false)
octet-decimal b h = reads_back→ b (holds_below→ 256 reads_back b bytes_read_back h)

octets_of_texts : (bs : List ℕ) → All IsByte bs → octets (octet_texts bs) ≡ some bs
unfolding octets octet_texts
octets_of_texts [] h = refl
octets_of_texts (b ∷ bs) h = rw ((octet-decimal b h.0).0, octets, octets_of_texts bs h.1)

length-octet_texts : (bs : List ℕ) → length (octet_texts bs) ≡ length bs
unfolding octet_texts
length-octet_texts [] = refl
length-octet_texts (b ∷ bs) = ap suc (length-octet_texts bs)

split-join :
    (b : ℕ) (bs : List ℕ)
    → All IsByte (b ∷ bs)
    → split b'.' (join (codes ".") (octet_texts (b ∷ bs))) ≡ octet_texts (b ∷ bs)
unfolding join octet_texts
split-join b [] h = split_whole b'.' (decimal b) (octet-decimal b h.0).1
split-join b (c ∷ bs) h =
    split-append b'.' (decimal b) (join (codes ".") (octet_texts (c ∷ bs))) (octet-decimal b h.0).1
    ∙ ap (λ ts. decimal b ∷ ts) (split-join c bs h.1)

pub ipv4_packed-ipv4_text :
    (bs : List ℕ) → length bs ≡ 4 → All IsByte bs → ipv4_packed (ipv4_text bs) ≡ some bs
unfolding ipv4_packed ipv4_text
ipv4_packed-ipv4_text [] size h = absurd (omega arith)
ipv4_packed-ipv4_text (b ∷ bs) size h =
    rw (split-join b bs h, octets_of_texts (b ∷ bs) h, length-octet_texts (b ∷ bs), size)

-- Printing a byte string of at most four bytes as a dotted address and encoding the text gives the
-- four bytes back: the same bytes, padded on the high side.
pub encode_ipv4-decode_ipv4 :
    (bs : List ℕ) (s : Text)
    → All IsByte bs
    → decode_ipv4 (bytes bs) ≡ ok s
    → (length bs ≤ 4) × (encode_ipv4 s ≡ ok (padded bs 32))
unfolding decode_ipv4 encode_ipv4
encode_ipv4-decode_ipv4 bs s digits e =
    let (out, extended, text) = >>=-eq-ok (zero_extend bs 32) _ e in
    let (short, same) = zero_extend-ok bs out 32 extended in
    let printed : ipv4_text (padded bs 32) ≡ s = ap ipv4_text (sym same) ∙ ok_inj text in
    (
      short,
      rw (
        ← printed,
        ipv4_packed-ipv4_text (padded bs 32) (padded_size bs 32 short) (padded-IsByte bs 32 digits),
      ),
    )
