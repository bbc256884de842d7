-- ===== src/Webapi/Lines/RoundTrip.antt =====
-- What `parse_line` gives back of what `format_line` wrote.
use jornada_link.Common.{
  ℕ, suc, ◌≡◌, refl, sym, ap, ap₂, ◌∙◌, true, false, none, some, List, [], ◌∷◌, ◌++◌, map,
  append_assoc, append-nil, All, take, drop, take-length-append, length, arith, ◌==◌,
}
use jornada_link.Common.Result.{ok}
use jornada_link.Webapi.Chars.{has, is_space, strip}
use jornada_link.Webapi.Names.{multi_valued_params}
use jornada_link.Webapi.Fold.{filled}
use jornada_link.Webapi.Lines.{
  Params, quote, among, find_loop, find_outside_quotes, split_quoted, partition, rpartition,
  split_group, quote_if_needed, unquote_param_value, normalize_params, parse_param, parse_params,
  line_of, parse_head, parse_line, render_params, format_line,
}
use jornada_link.Webapi.Lines.Quoting.{
  IsSealed, IsSealed-append, plain-IsSealed, split-IsSealed, split_next,
}
use jornada_link.Webapi.Lines.Strip.{
  name_char, name-lacks, name-IsTrimmed, name_char-solid, strip-IsTrimmed, strip_left_solid,
  strip_right_solid, strip_right-append,
}
use jornada_link.Webapi.Lines.Rendered.{
  IsValue, Rendered, quote_if_needed-Rendered, format_param_value-single, unquote-Rendered,
}

-- What is written for a parameter after its semicolon.
abbrev param_piece : List ℕ × List ℕ → List ℕ
param_piece (key, value) = key ++ (b'=' ∷ quote_if_needed value)

drop_past : (c : ℕ) (xs ys : List ℕ) → drop (suc (length xs)) (xs ++ (c ∷ ys)) ≡ ys
unfolding drop
drop_past c [] ys = refl
drop_past c (x ∷ xs) ys = drop_past c xs ys

partition-append :
    (c : ℕ) (xs ys : List ℕ) → has c xs ≡ false → partition c (xs ++ (c ∷ ys)) ≡ some (xs, ys)
unfolding partition
partition-append c [] ys h = ground arith
partition-append c (x ∷ xs) ys h =
    let e : (x == c) ≡ false = ground arith in
    rw (e, partition, partition-append c xs ys (ground arith)) refl

rpartition-lacks : (c : ℕ) (text : List ℕ) → has c text ≡ false → rpartition c text ≡ none
unfolding rpartition
rpartition-lacks c [] h = refl
rpartition-lacks c (x ∷ text) h =
    let e : (x == c) ≡ false = ground arith in
    rw (rpartition-lacks c text (ground arith), rpartition, e) refl

module _ (upper : List ℕ → List ℕ) where
  -- A name of a property or a parameter, in upper case as `upper` has it.
  pub record IsName (name : List ℕ) : Type 0 where
    pub some_char : filled name ≡ true
    pub chars : All (λ c. name_char c ≡ true) name
    pub upper_case : upper name ≡ name

  -- A parameter of one value.
  pub record IsParam (param : List ℕ × List ℕ) : Type 0 where
    pub key : IsName param.0
    pub single : among param.0 multi_valued_params ≡ false
    pub value : IsValue param.1

  parse_param_step :
      (piece stripped : List ℕ) (c : ℕ) (name value : List ℕ)
      → strip piece ≡ c ∷ stripped
      → partition b'=' (c ∷ stripped) ≡ some (name, value)
      → parse_param upper piece ≡ (upper (strip name), unquote_param_value value) ∷ []
  unfolding parse_param
  parse_param_step piece stripped c name value e f = rw (e, parse_param, f) refl

  piece-strip :
      (c : ℕ) (key value text : List ℕ)
      → is_space c ≡ false
      → Rendered value text
      → strip ((c ∷ key) ++ (b'=' ∷ text)) ≡ (c ∷ key) ++ (b'=' ∷ text)
  unfolding is_space
  piece-strip c key value text h r = strip-IsTrimmed ((c ∷ key) ++ (b'=' ∷ text)) (
    strip_left_solid c (key ++ (b'=' ∷ text)) h,
    strip_right-append (c ∷ key) (b'=' ∷ text) (strip_right_solid b'=' text refl r.trimmed.1) refl,
  )

  parse_param-piece :
      (key value : List ℕ)
      → IsParam (key, value)
      → parse_param upper (param_piece (key, value)) ≡ (key, value) ∷ []
  unfolding name_char is_space
  parse_param-piece [] value p = absurd (let h = p.key.some_char in ground arith)
  parse_param-piece (c ∷ key) value p =
      let r = quote_if_needed-Rendered value p.value in
      let name = strip-IsTrimmed (c ∷ key) (name-IsTrimmed (c ∷ key) p.key.chars) in
      parse_param_step (param_piece (c ∷ key, value)) (key ++ (b'=' ∷ quote_if_needed value)) c
        (c ∷ key) (quote_if_needed value)
        (piece-strip c key value (quote_if_needed value) (name_char-solid c p.key.chars.0) r)
        (partition-append b'=' (c ∷ key) (quote_if_needed value)
          (name-lacks b'=' (c ∷ key) refl p.key.chars))
      ∙ ap₂ (λ k v. (k, v) ∷ []) (ap upper name ∙ p.key.upper_case)
          (unquote-Rendered value (quote_if_needed value) r)

  parse_params-pieces :
      (params : Params) → All IsParam params → parse_params upper (map param_piece params) ≡ params
  unfolding parse_params
  parse_params-pieces [] h = refl
  parse_params-pieces ((key, value) ∷ params) h =
      ap₂ (◌++◌) (parse_param-piece key value h.0) (parse_params-pieces params h.1)

  name-IsSealed :
      (separator : ℕ) (name : List ℕ)
      → name_char separator ≡ false
      → IsName name
      → IsSealed separator name
  unfolding name_char is_space
  name-IsSealed separator name k n =
      plain-IsSealed separator name (name-lacks quote name refl n.chars)
        (name-lacks separator name k n.chars)

  piece-IsSealed :
      (separator : ℕ) (key value : List ℕ)
      → (separator == b'=') ≡ false
      → name_char separator ≡ false
      → IsParam (key, value)
      → IsSealed separator (quote_if_needed value)
      → IsSealed separator (param_piece (key, value))
  unfolding name_char is_space
  piece-IsSealed separator key value h k p r =
      IsSealed-append separator key (b'=' ∷ quote_if_needed value)
        (name-IsSealed separator key k p.key)
        (IsSealed-append separator (b'=' ∷ []) (quote_if_needed value)
          (plain-IsSealed separator (b'=' ∷ []) refl (ground arith)) r)

  render_step :
      (key value : List ℕ) (params : Params)
      → IsParam (key, value)
      → render_params upper ((key, value) ∷ params)
        ≡ b';' ∷ (param_piece (key, value) ++ render_params upper params)
  unfolding render_params
  render_step key value params p =
      ap (λ t. b';' ∷ (key ++ ((b'=' ∷ t) ++ render_params upper params)))
        (format_param_value-single key value p.single p.value)
      ∙ ap (◌∷◌ b';') (sym (append_assoc key (b'=' ∷ quote_if_needed value) _))

  -- The written parameters are split at their semicolons.
  split-render_params :
      (text : List ℕ) (params : Params)
      → IsSealed b';' text
      → All IsParam params
      → split_quoted false b';' (text ++ render_params upper params) ≡ text ∷ map param_piece params
  unfolding render_params name_char is_space
  split-render_params text [] s h =
      ap (split_quoted false b';') (append-nil text) ∙ split-IsSealed b';' text s
  split-render_params text ((key, value) ∷ params) s h =
      let r = quote_if_needed-Rendered value h.0.value in
      ap (λ t. split_quoted false b';' (text ++ t)) (render_step key value params h.0)
      ∙ (split_next b';' text (param_piece (key, value) ++ render_params upper params) refl s
          ∙ ap (◌∷◌ text) (
              split-render_params (param_piece (key, value)) params
                (piece-IsSealed b';' key value refl refl h.0 r.semicolons) h.1))

  render_params-IsSealed :
      (params : Params) → All IsParam params → IsSealed b':' (render_params upper params)
  unfolding render_params name_char is_space
  render_params-IsSealed [] h = plain-IsSealed b':' [] refl refl
  render_params-IsSealed ((key, value) ∷ params) h =
      let r = quote_if_needed-Rendered value h.0.value in
      rw (render_step key value params h.0) (
        IsSealed-append b':' (b';' ∷ []) (param_piece (key, value) ++ render_params upper params)
          (plain-IsSealed b':' (b';' ∷ []) refl refl)
          (IsSealed-append b':' (param_piece (key, value)) (render_params upper params)
            (piece-IsSealed b':' key value refl refl h.0 r.colons)
            (render_params-IsSealed params h.1)))

  find-IsSealed :
      (head value : List ℕ)
      → IsSealed b':' head
      → find_outside_quotes (head ++ (b':' ∷ value)) b':' ≡ some (length head)
  unfolding find_loop
  find-IsSealed head value s = s.finds 0 (b':' ∷ value) ∙ ap some (omega arith)

  parse_line_step :
      (line : List ℕ) (colon : ℕ)
      → find_outside_quotes line b':' ≡ some colon
      → parse_line upper line ≡ parse_head upper (take colon line) (drop (suc colon) line)
  unfolding parse_line
  parse_line_step line colon e = rw (e, parse_line) refl

  parse_head_step :
      (head value first : List ℕ) (pieces : List (List ℕ)) (params : Params)
      → split_quoted false b';' head ≡ first ∷ pieces
      → parse_params upper pieces ≡ params
      → parse_head upper head value ≡ line_of upper (split_group (strip first)) params value
  unfolding parse_head
  parse_head_step head value first pieces params e f = rw (e, parse_head, f) refl

  split_group-name : (name : List ℕ) → IsName name → split_group (strip name) ≡ (none, name)
  unfolding split_group name_char is_space
  split_group-name name n =
      ap split_group (strip-IsTrimmed name (name-IsTrimmed name n.chars))
      ∙ rw (rpartition-lacks b'.' name (name-lacks b'.' name refl n.chars), split_group) refl

  line_of-name :
      (name value : List ℕ) (params : Params)
      → IsName name
      → line_of upper (none, name) params value
        ≡ ok (record { group = none; name = name; params = params; value = value })
  line_of-name [] value params n = absurd (let h = n.some_char in ground arith)
  line_of-name (c ∷ name) value params n = rw n.upper_case refl

  normalize_params-id :
      (params : Params) → All IsParam params → normalize_params upper params ≡ params
  unfolding normalize_params
  normalize_params-id [] h = refl
  normalize_params-id ((key, value) ∷ params) h =
      ap₂ (λ k ps. (k, value) ∷ ps)
        (ap upper (strip-IsTrimmed key (name-IsTrimmed key h.0.key.chars)) ∙ h.0.key.upper_case)
        (normalize_params-id params h.1)

  written : List ℕ → Params → List ℕ → List ℕ
  written name params value = (name ++ render_params upper params) ++ (b':' ∷ value)

  format_line-written :
      (name value : List ℕ) (params : Params)
      → IsName name
      → All IsParam params
      → format_line upper none name params value ≡ written name params value
  unfolding format_line written
  format_line-written name value params n h =
      ap₂ (λ m ps. m ++ (render_params upper ps ++ (b':' ∷ value))) n.upper_case
        (normalize_params-id params h)
      ∙ sym (append_assoc name (render_params upper params) (b':' ∷ value))

  parse_line-written :
      (name value : List ℕ) (params : Params)
      → IsName name
      → All IsParam params
      → parse_line upper (written name params value)
        ≡ ok (record { group = none; name = name; params = params; value = value })
  unfolding written name_char is_space
  parse_line-written name value params n h =
      let head = name ++ render_params upper params in
      parse_line_step (head ++ (b':' ∷ value)) (length head) (
        find-IsSealed head value (
          IsSealed-append b':' name (render_params upper params) (name-IsSealed b':' name refl n)
            (render_params-IsSealed params h)))
      ∙ (ap₂ (parse_head upper) (take-length-append head (b':' ∷ value)) (drop_past b':' head value)
          ∙ (parse_head_step head value name (map param_piece params) params
                (split-render_params name params (name-IsSealed b';' name refl n) h)
                (parse_params-pieces params h)
              ∙ (ap (λ g. line_of upper g params value) (split_group-name name n)
                  ∙ line_of-name name value params n)))

  -- What `format_line` writes of a name, of parameters of one value each and of any value, `parse_line`
  -- takes apart into the same three, without a group. The names have no white space, quotes or
  -- separators and are in upper case; the parameters' values have no quotes or line breaks and no white
  -- space at their ends, but may have colons, semicolons and commas.
  pub parse_line-format_line :
      (name value : List ℕ) (params : Params)
      → IsName name
      → All IsParam params
      → parse_line upper (format_line upper none name params value)
        ≡ ok (record { group = none; name = name; params = params; value = value })
  parse_line-format_line name value params n h =
      ap (parse_line upper) (format_line-written name value params n h)
      ∙ parse_line-written name value params n h
