-- ===== src/Ppp/Stuffing.antt =====
-- The escapes of a frame: what a sender escapes is read back, and holds no flag.
use Prim.Native.Nat.{bit_xor}
use jornada_link.Common.{
  ℕ, ◌<◌, ◌≡◌, refl, ap, ap₂, Bool, true, false, List, [], ◌∷◌, All, arith, ◌==◌, ==_iff,
  Bool-cases, inl, inr, if◌then◌else◌,
}
use jornada_link.Common.Bits.{AreBytes}
use jornada_link.Common.Xor.{xor_self_inverse}
use jornada_link.Ppp.{flag, escape, unescape_from, unescape}

-- What a sender escapes: the flag and the escape at least, and never the byte that would become a
-- flag.
pub record Escapes : Type 0 where
  pub must : ℕ → Bool
  pub must_flag : must flag ≡ true
  pub must_escape : must escape ≡ true
  pub never : must 0x5E ≡ false

-- The sender's side, after RFC 1662.
unfoldable pub stuff : (ℕ → Bool) → List ℕ → List ℕ
stuff must [] = []
stuff must (b ∷ bs) =
    let rest = stuff must bs in if must b then escape ∷ bit_xor b 0x20 ∷ rest else b ∷ rest

abbrev pub HasNoFlag : List ℕ → Type 0
HasNoFlag = All (λ b. (b == flag) ≡ false)

-- Whatever map of escapes a sender uses, `_unescape` gives back the bytes.
pub unescape-stuff : (e : Escapes) (bs : List ℕ) → AreBytes bs → unescape (stuff e.must bs) ≡ bs
unfolding stuff unescape_from
unescape-stuff e [] h = refl
unescape-stuff e (b ∷ bs) h = elim (Bool-cases (e.must b)) [
  | inl on ↦
      rw (on, unescape_from)
        (ap₂ ◌∷◌ (xor_self_inverse b 0x20 h.0 (omega arith)) (unescape-stuff e bs h.1))
  | inr off ↦ elim (Bool-cases (b == escape)) [
    | inl same ↦ absurd (cc (off, e.must_escape, (==_iff b escape).0 same))
    | inr other ↦ rw (off, other) (ap (◌∷◌ b) (unescape-stuff e bs h.1))
  ]
]

escaped-no_flag : (b : ℕ) → b < 256 → (bit_xor b 0x20 == flag) ≡ true → b ≡ 0x5E
escaped-no_flag b h e =
    let same : bit_xor b 0x20 ≡ flag = (==_iff (bit_xor b 0x20) flag).0 e in
    let back : bit_xor (bit_xor b 0x20) 0x20 ≡ b = xor_self_inverse b 0x20 h (omega arith) in
    let code : bit_xor (bit_xor b 0x20) 0x20 ≡ 0x5E = ap (λ x. bit_xor x 0x20) same in omega arith

pub stuff-HasNoFlag : (e : Escapes) (bs : List ℕ) → AreBytes bs → HasNoFlag (stuff e.must bs)
unfolding stuff
stuff-HasNoFlag e [] h = tt
stuff-HasNoFlag e (b ∷ bs) h = elim (Bool-cases (e.must b)) [
  | inl on ↦ elim (Bool-cases (bit_xor b 0x20 == flag)) [
    | inl bad ↦ absurd (cc (on, e.never, escaped-no_flag b h.0 bad))
    | inr good ↦ rw on (refl, (good, stuff-HasNoFlag e bs h.1))
  ]
  | inr off ↦ elim (Bool-cases (b == flag)) [
    | inl same ↦ absurd (cc (off, e.must_flag, (==_iff b flag).0 same))
    | inr other ↦ rw off (other, stuff-HasNoFlag e bs h.1)
  ]
]
