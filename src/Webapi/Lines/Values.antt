-- ===== src/Webapi/Lines/Values.antt =====
-- A property's value on the wire and back.
use jornada_link.Common.{ℕ, ◌≡◌, refl, List, Bool-cases, inl, inr, if◌then◌else◌}
use jornada_link.Webapi.Escape.RoundTrip.{line_breaks, unescape-escape}
use jornada_link.Webapi.Lines.{Params, is_text_value, decode_value, encode_value}

-- What `decode_value` makes of what `encode_value` wrote is the value as it was, or, where the value
-- is free text by its name and parameters, the value with every line break as a line feed.
pub decode_value-encode_value :
    (upper : List ℕ → List ℕ) (name : List ℕ) (params : Params) (value : List ℕ)
    → decode_value upper name params (encode_value upper name params value)
      ≡ (if is_text_value upper name params then line_breaks value else value)
unfolding decode_value encode_value
decode_value-encode_value upper name params value =
    elim (Bool-cases (is_text_value upper name params)) [
      | inl e ↦ rw e (unescape-escape value)
      | inr e ↦ rw e refl
    ]
