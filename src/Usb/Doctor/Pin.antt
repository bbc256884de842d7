-- ===== src/Usb/Doctor/Pin.antt =====
-- The pinned port of jornada/usb_doctor.py, as the text of the file that holds it.
use jornada_link.Common.{
  ℕ, ◌≡◌, refl, sym, ap, ap₂, ◌∙◌, All, All-append, ==_iff, Bool, true, false, ◌&&◌, ◌||◌, Option,
  none, some, List, [], ◌∷◌, ◌++◌, leb, arith, ◌==◌, if◌then◌else◌, Bool-cases, Option-cases, inl,
  inr,
}
use jornada_link.Common.Result.{Result, ok, err}
use jornada_link.Webapi.Replace.{has-append_right}
use jornada_link.Webapi.Chars.{is_space, has, lf, strip, strip_left, strip_right}

-- `[A-Za-z0-9._-]`
unfoldable pub serial_char : ℕ → Bool
serial_char c =
    (leb b'A' c && leb c b'Z')
    || (leb b'a' c && leb c b'z')
    || (leb b'0' c && leb c b'9')
    || (c == b'.')
    || (c == b'_')
    || (c == b'-')

-- the rest of a match of `[A-Za-z0-9._-]+$`: in Python, `$` also stands before a last line feed
unfoldable pub serial_rest : List ℕ → Bool
unfolding serial_char
serial_rest [] = true
serial_rest (c ∷ []) = serial_char c || (c == lf)
serial_rest (c ∷ d ∷ text) = serial_char c && serial_rest (d ∷ text)

abbrev serial_name : List ℕ → Bool
serial_name [] = false
serial_name (c ∷ text) = serial_char c && serial_rest text

-- the text after a prefix
unfoldable pub after_prefix : List ℕ → List ℕ → Option (List ℕ)
after_prefix [] text = some text
after_prefix (p ∷ prefix_) [] = none
after_prefix (p ∷ prefix_) (c ∷ text) = if p == c then after_prefix prefix_ text else none

abbrev pub serial_prefix : List ℕ
serial_prefix = b'/' ∷ b'd' ∷ b'e' ∷ b'v' ∷ b'/' ∷ b'c' ∷ b'u' ∷ b'.' ∷ []

-- `is_valid_serial_path`
unfoldable pub is_valid_serial_path : List ℕ → Bool
unfolding after_prefix serial_rest
is_valid_serial_path path = elim (after_prefix serial_prefix path) [
  | none ↦ false
  | some name ↦ serial_name name
]

-- a character at which `splitlines` ends a line
unfoldable pub is_line_break : ℕ → Bool
is_line_break c =
    (leb 10 c && leb c 13)
    || (leb 28 c && leb c 30)
    || (c == 0x85)
    || (c == 0x2028)
    || (c == 0x2029)

-- the first of `text.splitlines()`, empty where there is none
unfoldable pub first_line : List ℕ → List ℕ
unfolding is_line_break
first_line [] = []
first_line (c ∷ text) = let rest = first_line text in if is_line_break c then [] else c ∷ rest

-- `read_pin`, of the text of a file that could be read
unfoldable pub read_pin : List ℕ → Option (List ℕ)
unfolding strip first_line is_valid_serial_path
read_pin text =
    let first = strip (first_line (strip text)) in
    if is_valid_serial_path first then some first else none

pub data PinError : Type 0 where
  not_plain : PinError

-- `write_pin`: the text that the file gets
unfoldable pub write_pin : List ℕ → Result PinError (List ℕ)
unfolding is_valid_serial_path
write_pin device_path =
    if is_valid_serial_path device_path then ok (device_path ++ (lf ∷ [])) else err not_plain

-- A character of a line that `strip` and `splitlines` leave alone.
abbrev IsKept : ℕ → Type 0
IsKept c = (is_space c ≡ false) × (is_line_break c ≡ false)

serial_char-IsKept : (c : ℕ) → serial_char c ≡ true → IsKept c
unfolding serial_char is_space is_line_break
serial_char-IsKept c h = ground arith

prefix-append :
    (prefix_ text name : List ℕ) → after_prefix prefix_ text ≡ some name → text ≡ prefix_ ++ name
unfolding after_prefix
prefix-append [] text name h = ground arith
prefix-append (p ∷ prefix_) [] name h = ground arith
prefix-append (p ∷ prefix_) (c ∷ text) name h = elim (Bool-cases (p == c)) [
  | inl e ↦
      let later : after_prefix prefix_ text ≡ some name = (rw (e, after_prefix) at h) in
      ap₂ (◌∷◌) (sym ((==_iff p c).0 e)) (prefix-append prefix_ text name later)
  | inr e ↦ ground arith
]

serial_rest-IsKept :
    (text : List ℕ) → serial_rest text ≡ true → has lf text ≡ false → All IsKept text
unfolding serial_rest
serial_rest-IsKept [] h k = tt
serial_rest-IsKept (c ∷ []) h k = (serial_char-IsKept c (ground arith), tt)
serial_rest-IsKept (c ∷ d ∷ text) h k = (
  serial_char-IsKept c (ground arith),
  serial_rest-IsKept (d ∷ text) (ground arith) (ground arith),
)

prefix-IsKept : All IsKept serial_prefix
unfolding is_space is_line_break
prefix-IsKept = ground arith

name-IsKept : (name : List ℕ) → serial_name name ≡ true → has lf name ≡ false → All IsKept name
name-IsKept [] h k = tt
name-IsKept (c ∷ text) h k =
    (serial_char-IsKept c (ground arith), serial_rest-IsKept text (ground arith) (ground arith))

valid_name :
    (path name : List ℕ)
    → after_prefix serial_prefix path ≡ some name
    → is_valid_serial_path path ≡ true
    → serial_name name ≡ true
unfolding is_valid_serial_path
valid_name path name e h = (rw (e, is_valid_serial_path) at h)

no_name :
    (path : List ℕ)
    → after_prefix serial_prefix path ≡ none
    → is_valid_serial_path path ≡ true
    → false ≡ true
unfolding is_valid_serial_path
no_name path e h = (rw (e, is_valid_serial_path) at h)

valid-IsKept :
    (path : List ℕ)
    → is_valid_serial_path path ≡ true
    → has lf path ≡ false
    → (more : List ℕ) × (path ≡ b'/' ∷ more) × All IsKept path
valid-IsKept path h k = elim (Option-cases (after_prefix serial_prefix path)) [
  | inl e ↦ absurd (let f = no_name path e h in ground arith)
  | inr (name, e) ↦
      let whole = prefix-append serial_prefix path name e in
      (
        _,
        whole,
        rw whole (
            All-append IsKept serial_prefix name prefix-IsKept (
              name-IsKept name (valid_name path name e h)
                (has-append_right lf serial_prefix name (rw whole at k)))),
      )
]

first_line_kept : (text : List ℕ) → All IsKept text → first_line text ≡ text
unfolding first_line
first_line_kept [] h = refl
first_line_kept (c ∷ text) h = rw (h.0.1, first_line) (ap (◌∷◌ c) (first_line_kept text h.1))

strip_right_kept : (text : List ℕ) → All IsKept text → strip_right is_space text ≡ text
unfolding strip_right
strip_right_kept [] h = refl
strip_right_kept (c ∷ []) h = rw h.0.0 refl
strip_right_kept (c ∷ d ∷ text) h = rw (strip_right_kept (d ∷ text) h.1) refl

-- A line feed at the end is taken off.
strip_right_line :
    (text : List ℕ) → All IsKept text → strip_right is_space (text ++ (lf ∷ [])) ≡ text
unfolding strip_right is_space
strip_right_line [] h = refl
strip_right_line (c ∷ []) h = rw h.0.0 refl
strip_right_line (c ∷ d ∷ text) h = rw (strip_right_line (d ∷ text) h.1) refl

strip_left_slash : (more : List ℕ) → strip_left is_space (b'/' ∷ more) ≡ b'/' ∷ more
unfolding strip_left is_space
strip_left_slash more = refl

strip_kept :
    (more : List ℕ)
    → All IsKept (b'/' ∷ more)
    → (strip (b'/' ∷ more) ≡ b'/' ∷ more) × (strip ((b'/' ∷ more) ++ (lf ∷ [])) ≡ b'/' ∷ more)
unfolding strip
strip_kept more h = (
  ap (strip_right is_space) (strip_left_slash more) ∙ strip_right_kept (b'/' ∷ more) h,
  ap (strip_right is_space) (strip_left_slash (more ++ (lf ∷ [])))
      ∙ strip_right_line (b'/' ∷ more) h,
)

read_pin_step :
    (text stripped line first : List ℕ)
    → strip text ≡ stripped
    → first_line stripped ≡ line
    → strip line ≡ first
    → is_valid_serial_path first ≡ true
    → read_pin text ≡ some first
unfolding read_pin
read_pin_step text stripped line first e f g valid = rw (e, read_pin, f, g, valid) refl

read_back :
    (more : List ℕ)
    → All IsKept (b'/' ∷ more)
    → is_valid_serial_path (b'/' ∷ more) ≡ true
    → read_pin ((b'/' ∷ more) ++ (lf ∷ [])) ≡ some (b'/' ∷ more)
read_back more h valid =
    read_pin_step ((b'/' ∷ more) ++ (lf ∷ [])) (b'/' ∷ more) (b'/' ∷ more) (b'/' ∷ more)
      (strip_kept more h).1 (first_line_kept (b'/' ∷ more) h) (strip_kept more h).0 valid

-- A valid path without a line feed is written, and `read_pin` reads it back from what `write_pin`
-- wrote.
pub read_pin-write_pin :
    (path : List ℕ)
    → is_valid_serial_path path ≡ true
    → has lf path ≡ false
    → (text : List ℕ) × (write_pin path ≡ ok text) × (read_pin text ≡ some path)
unfolding write_pin
read_pin-write_pin path valid k =
    let (more, e, kept) = valid-IsKept path valid k in
    (path ++ (lf ∷ []), rw valid refl, rw e (read_back more (rw e at kept) (rw e at valid)))
