-- ===== src/Password/Mask.antt =====
-- The device, which knows the key, recovers the password from what is sent.
use jornada_link.Common.{ℕ, ◌<◌, ◌≡◌, refl, ap₂, List, [], ◌∷◌, All-append, append-nil, arith}
use jornada_link.Common.Bits.{AreBytes, IsByte}
use jornada_link.Common.Xor.{xor_self_inverse, xor-lt}
use jornada_link.Common.Result.{ok}
use jornada_link.Wire.Utf16.{IsText, decode_utf16, before_nul}
use jornada_link.Wire.Utf16.RoundTrip.{encode_utf16-AreBytes}
use jornada_link.Wire.Encode.{wstr}
use jornada_link.Wire.RoundTrip.{NoNul, before_nul-decode-wstr}
use jornada_link.Password.{mask, encode_password}

mask-mask : (key : ℕ) (raw : List ℕ) → key < 256 → AreBytes raw → mask key (mask key raw) ≡ raw
unfolding mask
mask-mask key [] hk h = refl
mask-mask key (b ∷ raw) hk h = ap₂ ◌∷◌ (xor_self_inverse b key h.0 hk) (mask-mask key raw hk h.1)

mask-AreBytes : (key : ℕ) (raw : List ℕ) → key < 256 → AreBytes raw → AreBytes (mask key raw)
unfolding mask
mask-AreBytes key [] hk h = tt
mask-AreBytes key (b ∷ raw) hk h = (xor-lt b key h.0 hk, mask-AreBytes key raw hk h.1)

wstr-AreBytes : (text : List ℕ) → AreBytes (wstr text)
unfolding wstr
wstr-AreBytes text = All-append IsByte _ (0 ∷ 0 ∷ []) (encode_utf16-AreBytes text) (omega arith)

-- For every key that is a byte and every password without NUL, encoding succeeds, yields bytes, and
-- the same mask followed by the text decoder gives the password back.
pub decode-encode_password :
    (password : List ℕ) (key : ℕ)
    → key < 256
    → IsText password
    → NoNul password
    → (encoded : List ℕ) × (encode_password password key ≡ ok encoded)
      × AreBytes encoded
      × (before_nul (decode_utf16 (mask key encoded)) ≡ password)
unfolding encode_password
decode-encode_password password key hk valid no_nul = (
  mask key (wstr password),
  ground arith,
  mask-AreBytes key (wstr password) hk (wstr-AreBytes password),
  rw (mask-mask key (wstr password) hk (wstr-AreBytes password))
      (rw append-nil at (before_nul-decode-wstr password [] valid no_nul)),
)
