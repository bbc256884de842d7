-- ===== src/Webapi/Examples.antt =====
-- Tests of the text of calendars and cards, and their theorems at concrete inputs.
use jornada_link.Common.{
  ℕ, ◌≤◌, ◌≡◌, refl, none, some, List, [], ◌∷◌, ◌++◌, map, All, arith, text_eq,
}
use jornada_link.Webapi.Chars.{
  cr, lf, backslash, replace, replace_pair, join, is_space, strip, strip_left, strip_right,
}
use jornada_link.Webapi.Escape.{escape, unescape, split_unescaped}
use jornada_link.Webapi.Escape.RoundTrip.{line_breaks, unescape-escape}
use jornada_link.Webapi.Escape.Split.{unescape-split-join}
use jornada_link.Webapi.Lines.{
  normalize_params, param_loop, is_text_value, encode_value, decode_value, Params, parse_line,
  format_line, render_params, format_param_value, clean, quote_if_needed,
}
use jornada_link.Webapi.Lines.Values.{decode_value-encode_value}
use jornada_link.Webapi.Lines.Strip.{name_char}
use jornada_link.Webapi.Lines.RoundTrip.{parse_line-format_line}
use jornada_link.Common.Result.{ok}
use jornada_link.Webapi.Fold.{fold, fold_loop, utf8_size, unfold_text}
use jornada_link.Webapi.Fold.Pieces.{IsScalar, octets, joined, folded_lines, fold_lem}
use jornada_link.Webapi.Fold.RoundTrip.{IsLogical, write_lines, unfold-write_lines}

-- A text with a semicolon, a backslash and a line break of two characters.
abbrev tricky : List ℕ
tricky = b'a' ∷ b';' ∷ backslash ∷ b'n' ∷ cr ∷ lf ∷ b'z' ∷ []

escape-tricky :
    escape tricky
    ≡ b'a' ∷ backslash ∷ b';' ∷ backslash ∷ backslash ∷ b'n' ∷ backslash ∷ b'n' ∷ b'z' ∷ []
unfolding escape replace replace_pair
escape-tricky = refl

unescape-escape_example : unescape (escape tricky) ≡ b'a' ∷ b';' ∷ backslash ∷ b'n' ∷ lf ∷ b'z' ∷ []
unfolding line_breaks replace replace_pair
unescape-escape_example = unescape-escape tricky

unescape-split-join_example :
    map unescape (
      split_unescaped (join (b';' ∷ []) (escape tricky ∷ escape [] ∷ escape (b',' ∷ []) ∷ [])) b';')
    ≡ (b'a' ∷ b';' ∷ backslash ∷ b'n' ∷ lf ∷ b'z' ∷ []) ∷ [] ∷ (b',' ∷ []) ∷ []
unfolding line_breaks replace replace_pair
unescape-split-join_example = unescape-split-join b';' refl tricky ([] ∷ (b',' ∷ []) ∷ [])

-- A line of eight octets in seven characters, the third of two octets.
abbrev short_line : List ℕ
short_line = b'A' ∷ b':' ∷ 0xE9 ∷ b'b' ∷ b'c' ∷ b'd' ∷ b'e' ∷ []

fold-short_line :
    fold short_line 5 ≡ some (b'A' ∷ b':' ∷ 0xE9 ∷ b'b' ∷ cr ∷ lf ∷ b' ' ∷ b'c' ∷ b'd' ∷ b'e' ∷ [])
unfolding fold fold_loop utf8_size join
fold-short_line = refl

short_line-IsScalar : All IsScalar short_line
unfolding utf8_size
short_line-IsScalar =
    ((1, refl), ((1, refl), ((2, refl), ((1, refl), ((1, refl), ((1, refl), ((1, refl), tt)))))))

fold_lem_example :
    (first : List ℕ) × (rest : List (List ℕ)) × (fold short_line 5
      ≡ some (join (cr ∷ lf ∷ []) (folded_lines first rest)))
    × (joined (first ∷ rest) ≡ short_line)
    × All (λ physical. octets physical ≤ 5) (folded_lines first rest)
fold_lem_example = fold_lem short_line 5 (omega arith) short_line-IsScalar

unfold-write_lines_example :
    (text : List ℕ) × (write_lines 5 (short_line ∷ short_line ∷ []) ≡ some text)
    × (unfold_text text ≡ short_line ∷ short_line ∷ [])
unfolding is_space
unfold-write_lines_example =
    let h : IsLogical short_line = (refl, short_line-IsScalar, (refl, refl)) in
    unfold-write_lines 5 (short_line ∷ short_line ∷ []) (omega arith) (h, (h, tt))

-- The value of a property that is free text, and of a list.
abbrev summary : List ℕ
summary = b'S' ∷ b'U' ∷ b'M' ∷ []

abbrev nickname : List ℕ
nickname = b'N' ∷ []

encode_value-nickname : encode_value (λ text. text) nickname [] tricky ≡ tricky
unfolding encode_value is_text_value normalize_params param_loop text_eq
encode_value-nickname = refl

decode_value-encode_value_example :
    decode_value (λ text. text) summary [] (encode_value (λ text. text) summary [] tricky)
    ≡ b'a' ∷ b';' ∷ backslash ∷ b'n' ∷ lf ∷ b'z' ∷ []
unfolding line_breaks replace replace_pair is_text_value normalize_params param_loop text_eq
decode_value-encode_value_example = decode_value-encode_value (λ text. text) summary [] tricky

-- A parameter whose value needs quotes, and one that does not.
abbrev key_a : List ℕ
key_a = b'A' ∷ []

abbrev key_b : List ℕ
key_b = b'B' ∷ []

abbrev quoted_value : List ℕ
quoted_value = b'x' ∷ b':' ∷ b';' ∷ b'y' ∷ []

abbrev two_params : Params
two_params = (key_a, quoted_value) ∷ (key_b, b'1' ∷ []) ∷ []

abbrev keep_case : List ℕ → List ℕ
keep_case text = text

format_line-two_params :
    format_line keep_case none summary two_params (b'v' ∷ b':' ∷ [])
    ≡ summary
      ++ (b';' ∷ b'A' ∷ b'=' ∷ b'"' ∷ b'x' ∷ b':' ∷ b';' ∷ b'y' ∷ b'"' ∷ b';' ∷ b'B' ∷ b'=' ∷ b'1'
          ∷ b':' ∷ b'v' ∷ b':' ∷ [])
unfolding format_line render_params normalize_params format_param_value clean quote_if_needed
    text_eq strip strip_left strip_right is_space replace
format_line-two_params = refl

parse_line-format_line_example :
    parse_line keep_case (format_line keep_case none summary two_params (b'v' ∷ b':' ∷ []))
    ≡ ok (record { group = none; name = summary; params = two_params; value = b'v' ∷ b':' ∷ [] })
unfolding name_char is_space strip_left strip_right text_eq
parse_line-format_line_example =
    parse_line-format_line keep_case summary (b'v' ∷ b':' ∷ []) two_params
      (record { some_char = refl; chars = (refl, (refl, (refl, tt))); upper_case = refl })
      (
        record {
          key = record { some_char = refl; chars = (refl, tt); upper_case = refl };
          single = refl;
          value = record { no_quote = refl; no_cr = refl; no_lf = refl; trimmed = (refl, refl) };
        },
        (
          record {
            key = record { some_char = refl; chars = (refl, tt); upper_case = refl };
            single = refl;
            value = record { no_quote = refl; no_cr = refl; no_lf = refl; trimmed = (refl, refl) };
          },
          tt,
        ),
      )
