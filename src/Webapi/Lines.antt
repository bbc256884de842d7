-- ===== src/Webapi/Lines.antt =====
-- The parts of a content line, in jornada/webapi/_textprops.py. The method `str.upper` is an argument.
-- Parameters are pairs of texts, so that no pair is malformed.
pub mod Values
pub mod Quoting
pub mod Strip
pub mod Rendered
pub mod RoundTrip
use jornada_link.Common.{
  ℕ, zero, suc, Bool, true, false, not, ◌&&◌, ◌||◌, Option, none, some, List, [], ◌∷◌, ◌++◌, map,
  any, take, drop, ◌==◌, text_eq, if◌then◌else◌,
}
use jornada_link.Common.Result.{Result, ok, err}
use jornada_link.Webapi.Chars.{cr, lf, has, replace, split, join, strip}
use jornada_link.Webapi.Escape.{escape, unescape}
use jornada_link.Webapi.Names.{
  raw_value_names, multi_valued_params, bare_encodings, encoding_key, type_key, value_key,
  text_kind,
}

pub data TextPropError : Type 0 where
  no_separator no_name : TextPropError

abbrev pub Params : Type 0
Params = List (List ℕ × List ℕ)

pub record ContentLine : Type 0 where
  pub group : Option (List ℕ)
  pub name : List ℕ
  pub params : Params
  pub value : List ℕ

abbrev pub quote : ℕ
quote = 0x22

-- `text in texts`
abbrev pub among : List ℕ → List (List ℕ) → Bool
among text texts = any (λ t. text_eq text t) texts

-- the loop of `_find_outside_quotes`: none is -1
unfoldable pub find_loop : Bool → ℕ → ℕ → List ℕ → Option ℕ
find_loop quoted index wanted [] = none
find_loop quoted index wanted (c ∷ text) = elim (c == quote) [
  | true ↦ find_loop (not quoted) (suc index) wanted text
  | false ↦ elim ((c == wanted) && not quoted) [
    | true ↦ some index
    | false ↦ find_loop quoted (suc index) wanted text
  ]
]

abbrev pub find_outside_quotes : List ℕ → ℕ → Option ℕ
find_outside_quotes text wanted = find_loop false 0 wanted text

-- a character before the first piece
abbrev pub push : ℕ → List (List ℕ) → List (List ℕ)
push c [] = (c ∷ []) ∷ []
push c (piece ∷ pieces) = (c ∷ piece) ∷ pieces

-- `_split_outside_quotes`, from a place that is in quotes or not
unfoldable pub split_quoted : Bool → ℕ → List ℕ → List (List ℕ)
split_quoted quoted separator [] = [] ∷ []
split_quoted quoted separator (c ∷ text) = elim (c == quote) [
  | true ↦ push c (split_quoted (not quoted) separator text)
  | false ↦ elim ((c == separator) && not quoted) [
    | true ↦ [] ∷ split_quoted quoted separator text
    | false ↦ push c (split_quoted quoted separator text)
  ]
]

abbrev pub split_outside_quotes : List ℕ → ℕ → List (List ℕ)
split_outside_quotes text separator = split_quoted false separator text

-- `text.partition(c)` for one character, none where it does not occur
unfoldable pub partition : ℕ → List ℕ → Option (List ℕ × List ℕ)
partition c [] = none
partition c (d ∷ text) = elim (d == c) [
  | true ↦ some ([], text)
  | false ↦ elim (partition c text) [ none ↦ none | some (front, back) ↦ some (d ∷ front, back) ]
]

-- `text.rpartition(c)` for one character, none where it does not occur
unfoldable pub rpartition : ℕ → List ℕ → Option (List ℕ × List ℕ)
rpartition c [] = none
rpartition c (d ∷ text) = elim (rpartition c text) [
  | some (front, back) ↦ some (d ∷ front, back)
  | none ↦ if d == c then some ([], text) else none
]

-- `group or None`
abbrev pub non_empty : List ℕ → Option (List ℕ)
non_empty [] = none
non_empty (c ∷ text) = some (c ∷ text)

-- `_split_group`
unfoldable pub split_group : List ℕ → Option (List ℕ) × List ℕ
unfolding rpartition
split_group token = elim (rpartition b'.' token) [
  | none ↦ (none, token)
  | some (group, name) ↦ (non_empty group, name)
]

-- `text[1:-1]` of a text that ends in a quote, after its first character
abbrev inner : List ℕ → Option (List ℕ)
inner [] = none
inner (c ∷ []) = if c == quote then some [] else none
inner (c ∷ d ∷ text) = elim (inner (d ∷ text)) [ none ↦ none | some rest ↦ some (c ∷ rest) ]

abbrev or_text : Option (List ℕ) → List ℕ → List ℕ
or_text none text = text
or_text (some inside) text = inside

-- `_strip_quotes`
unfoldable pub strip_quotes : List ℕ → List ℕ
strip_quotes [] = []
strip_quotes (c ∷ text) = elim (c == quote) [
  | true ↦ or_text (inner text) (c ∷ text)
  | false ↦ c ∷ text
]

-- `_unquote_param_value`
unfoldable pub unquote_param_value : List ℕ → List ℕ
unfolding split_quoted strip_quotes strip join
unquote_param_value value =
    join (b',' ∷ [])
      (map (λ segment. strip_quotes (strip segment)) (split_outside_quotes value b','))

-- `_quote_if_needed`
unfoldable pub quote_if_needed : List ℕ → List ℕ
quote_if_needed value =
    if has b';' value || (has b':' value || has b',' value)
    then quote ∷ (value ++ (quote ∷ []))
    else value

-- what `_format_param_value` makes of quotes and of line breaks
unfoldable pub clean : List ℕ → List ℕ
unfolding replace
clean value = replace lf (b' ' ∷ []) (replace cr (b' ' ∷ []) (replace quote (b'\'' ∷ []) value))

-- `_format_param_value`
unfoldable pub format_param_value : List ℕ → List ℕ → List ℕ
unfolding clean quote_if_needed split join
format_param_value key value =
    if among key multi_valued_params
    then join (b',' ∷ []) (map quote_if_needed (split b',' (clean value)))
    else quote_if_needed (clean value)

module _ (upper : List ℕ → List ℕ) where
  -- `normalize_params`
  unfoldable pub normalize_params : Params → Params
  unfolding strip
  normalize_params params = map (λ item. (upper (strip item.0), item.1)) params

  -- the loop of `param_of`
  unfoldable pub param_loop : Params → List ℕ → Option (List ℕ)
  param_loop [] wanted = none
  param_loop ((key, value) ∷ params) wanted =
      if text_eq key wanted then some value else param_loop params wanted

  abbrev pub param_of : Params → List ℕ → Option (List ℕ)
  param_of params name = param_loop params (upper name)

  -- `is_text_value`
  unfoldable pub is_text_value : List ℕ → Params → Bool
  unfolding normalize_params param_loop
  is_text_value name params = elim (param_of (normalize_params params) value_key) [
    | some declared ↦ text_eq (upper declared) text_kind
    | none ↦ not (among (upper name) raw_value_names)
  ]

  unfoldable pub decode_value : List ℕ → Params → List ℕ → List ℕ
  unfolding is_text_value unescape
  decode_value name params raw = if is_text_value name params then unescape raw else raw

  unfoldable pub encode_value : List ℕ → Params → List ℕ → List ℕ
  unfolding is_text_value escape
  encode_value name params value = if is_text_value name params then escape value else value

  -- the end of `_parse_param`
  abbrev parse_pair : List ℕ → Option (List ℕ × List ℕ) → Params
  parse_pair key none =
      (if among (upper key) bare_encodings then (encoding_key, upper key) else (type_key, key)) ∷ []
  parse_pair key (some (name, value)) = (upper (strip name), unquote_param_value value) ∷ []

  -- `_parse_param`
  unfoldable pub parse_param : List ℕ → Params
  unfolding partition unquote_param_value strip
  parse_param piece = elim (strip piece) [
    | [] ↦ []
    | c ∷ stripped ↦ parse_pair (c ∷ stripped) (partition b'=' (c ∷ stripped))
  ]

  unfoldable pub parse_params : List (List ℕ) → Params
  unfolding parse_param
  parse_params [] = []
  parse_params (piece ∷ pieces) = parse_param piece ++ parse_params pieces

  abbrev pub line_of : Option (List ℕ) × List ℕ → Params → List ℕ → Result TextPropError ContentLine
  line_of (group, []) params value = err no_name
  line_of (group, c ∷ name) params value =
      ok (record { group = group; name = upper (c ∷ name); params = params; value = value })

  -- `parse_line` of a line that has its separator, cut there
  unfoldable pub parse_head : List ℕ → List ℕ → Result TextPropError ContentLine
  unfolding split_quoted split_group parse_params strip
  parse_head head value = elim (split_outside_quotes head b';') [
    | [] ↦ err no_name
    | first ∷ pieces ↦ line_of (split_group (strip first)) (parse_params pieces) value
  ]

  unfoldable pub parse_line : List ℕ → Result TextPropError ContentLine
  unfolding find_loop parse_head take drop
  parse_line line = elim (find_outside_quotes line b':') [
    | none ↦ err no_separator
    | some colon ↦ parse_head (take colon line) (drop (suc colon) line)
  ]

  unfoldable pub render_params : Params → List ℕ
  unfolding format_param_value
  render_params [] = []
  render_params ((key, value) ∷ params) =
      (b';' ∷ key) ++ ((b'=' ∷ format_param_value key value) ++ render_params params)

  -- `f"{group}." if group`
  abbrev pub group_prefix : Option (List ℕ) → List ℕ
  group_prefix none = []
  group_prefix (some []) = []
  group_prefix (some (c ∷ group)) = (c ∷ group) ++ (b'.' ∷ [])

  unfoldable pub format_line : Option (List ℕ) → List ℕ → Params → List ℕ → List ℕ
  unfolding render_params normalize_params
  format_line group name params value =
      group_prefix group
      ++ (upper name ++ (render_params (normalize_params params) ++ (b':' ∷ value)))
