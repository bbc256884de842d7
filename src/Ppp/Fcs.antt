-- ===== src/Ppp/Fcs.antt =====
-- The frame check sequence: a frame that ends in the complement of its checksum is found good.
use Prim.Native.Nat.{bit_xor}
use jornada_link.Common.{
  ℕ, zero, suc, ◌+◌, ◌-◌, ◌*◌, ◌/◌, ◌%◌, ◌^◌, ◌<◌, ◌≡◌, refl, ap, ◌∙◌, true, List, [], ◌∷◌, ◌++◌,
  arith, ◌==◌, ==_iff,
}
use jornada_link.Common.Bits.{AreBytes, le_bytes}
use jornada_link.Common.Xor.{holds_on, holds_on-at}
use jornada_link.Common.XorDigits.{bit_xor-lt, bit_xor-high, shift_up}
use jornada_link.Ppp.{good_fcs, fcs_bit, fcs_bits, fcs_from, fcs16}

-- The two bytes that a sender puts behind a frame.
abbrev pub trailer : List ℕ → List ℕ
trailer content = le_bytes 2 (0xFFFF - fcs16 content)

fcs_bit-lt : (fcs : ℕ) → fcs < 2 ^ 16 → fcs_bit fcs < 2 ^ 16
fcs_bit-lt fcs h = ground (arith, bit_xor-lt 16 (fcs / 2) 0x8408)

fcs_bits-lt : (n fcs : ℕ) → fcs < 2 ^ 16 → fcs_bits n fcs < 2 ^ 16
unfolding fcs_bits
fcs_bits-lt zero fcs h = h
fcs_bits-lt (suc n) fcs h = fcs_bits-lt n (fcs_bit fcs) (fcs_bit-lt fcs h)

fcs_from-lt :
    (content : List ℕ) (fcs : ℕ) → AreBytes content → fcs < 2 ^ 16 → fcs_from fcs content < 2 ^ 16
unfolding fcs_from
fcs_from-lt [] fcs hs h = h
fcs_from-lt (b ∷ bs) fcs hs h =
    fcs_from-lt bs _ hs.1 (fcs_bits-lt 8 _ (bit_xor-lt 16 fcs b h (omega (arith, hs.0))))

fcs_from-append :
    (xs ys : List ℕ) (fcs : ℕ) → fcs_from fcs (xs ++ ys) ≡ fcs_from (fcs_from fcs xs) ys
unfolding fcs_from
fcs_from-append [] ys fcs = refl
fcs_from-append (x ∷ xs) ys fcs = fcs_from-append xs ys _

low_table : holds_on (λ low. bit_xor low (255 - low) == 255) 256 ≡ true
unfolding holds_on
low_table = refl

high_table :
    holds_on
      (λ high. fcs_bits 8 (bit_xor (fcs_bits 8 (high * 256 + 255)) (255 - high)) == good_fcs)
      256
    ≡ true
unfolding holds_on fcs_bits
high_table = refl

low_byte : (low : ℕ) → low < 256 → bit_xor low (255 - low) ≡ 255
low_byte low h = (==_iff _ _).0 (holds_on-at (λ x. bit_xor x (255 - x) == 255) 256 low h low_table)

high_byte :
    (high : ℕ)
    → high < 256
    → fcs_bits 8 (bit_xor (fcs_bits 8 (high * 256 + 255)) (255 - high)) ≡ good_fcs
high_byte high h = (==_iff _ _).0 (
    holds_on-at (λ x. fcs_bits 8 (bit_xor (fcs_bits 8 (x * 256 + 255)) (255 - x)) == good_fcs) 256
      high h high_table)

first_byte : (high low : ℕ) → low < 256 → bit_xor (high * 256 + low) (255 - low) ≡ high * 256 + 255
first_byte high low h =
    ap (λ x. bit_xor x (255 - low))
      (let e : high * 256 + low ≡ shift_up 8 high + low = omega arith in e)
    ∙ omega (arith, bit_xor-high 8 high low (255 - low) h (omega arith), low_byte low h)

trailer_good :
    (high low : ℕ)
    → high < 256
    → low < 256
    → fcs_from (high * 256 + low) ((255 - low) ∷ (255 - high) ∷ []) ≡ good_fcs
unfolding fcs_from
trailer_good high low hh hl = rw (first_byte high low hl) (high_byte high hh)

trailer_bytes :
    (fcs : ℕ)
    → fcs < 2 ^ 16
    → le_bytes 2 (0xFFFF - fcs) ≡ (255 - fcs % 256) ∷ (255 - fcs / 256) ∷ []
unfolding le_bytes
trailer_bytes fcs h = rw (
  (let e : (0xFFFF - fcs) % 256 ≡ 255 - fcs % 256 = omega arith in e),
  (let e : (0xFFFF - fcs) / 256 % 256 ≡ 255 - fcs / 256 = omega arith in e),
)

good_trailer : (fcs : ℕ) → fcs < 2 ^ 16 → fcs_from fcs (le_bytes 2 (0xFFFF - fcs)) ≡ good_fcs
good_trailer fcs h =
    ap (fcs_from fcs) (trailer_bytes fcs h)
    ∙ ap (λ x. fcs_from x ((255 - fcs % 256) ∷ (255 - fcs / 256) ∷ []))
        (let e : fcs ≡ fcs / 256 * 256 + fcs % 256 = omega arith in e)
    ∙ trailer_good (fcs / 256) (fcs % 256) (omega arith) (omega arith)

-- Every content of bytes with its trailer behind it has the checksum of a good frame.
pub fcs16-append_trailer :
    (content : List ℕ) → AreBytes content → fcs16 (content ++ trailer content) ≡ good_fcs
fcs16-append_trailer content h =
    fcs_from-append content (trailer content) 0xFFFF
    ∙ good_trailer (fcs16 content) (fcs_from-lt content 0xFFFF h (omega arith))
