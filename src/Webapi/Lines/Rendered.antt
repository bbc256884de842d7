-- ===== src/Webapi/Lines/Rendered.antt =====
-- A parameter's value as it is written.
use jornada_link.Common.{
  ℕ, ◌≡◌, refl, ap, ◌∙◌, Bool, false, ◌||◌, some, List, [], ◌∷◌, ◌++◌, map, arith, ◌==◌, Bool-cases,
  inl, inr,
}
use jornada_link.Webapi.Chars.{cr, lf, has, is_space, replace, join, strip, strip_right}
use jornada_link.Webapi.Replace.{replace-id}
use jornada_link.Webapi.Lines.{
  quote, among, inner, strip_quotes, unquote_param_value, quote_if_needed, clean,
  format_param_value,
}
use jornada_link.Webapi.Names.{multi_valued_params}
use jornada_link.Webapi.Lines.Quoting.{IsSealed, plain-IsSealed, quoted-IsSealed, split-IsSealed}
use jornada_link.Webapi.Lines.Strip.{
  IsTrimmed, strip-IsTrimmed, strip_right-append, strip_left_solid,
}

-- A value without quotes and line breaks, which `strip` leaves as it is.
pub record IsValue (value : List ℕ) : Type 0 where
  pub no_quote : has quote value ≡ false
  pub no_cr : has cr value ≡ false
  pub no_lf : has lf value ≡ false
  pub trimmed : IsTrimmed value

-- What is written of a value: sealed for every separator, and read back.
pub record Rendered (value text : List ℕ) : Type 0 where
  pub semicolons : IsSealed b';' text
  pub colons : IsSealed b':' text
  pub commas : IsSealed b',' text
  pub trimmed : IsTrimmed text
  pub back : strip_quotes text ≡ value

inner-append : (text : List ℕ) → inner (text ++ (quote ∷ [])) ≡ some text
inner-append [] = refl
inner-append (c ∷ []) = refl
inner-append (c ∷ d ∷ text) = rw (inner-append (d ∷ text)) refl

strip_quotes-quoted : (text : List ℕ) → strip_quotes (quote ∷ (text ++ (quote ∷ []))) ≡ text
unfolding strip_quotes
strip_quotes-quoted text = rw (inner-append text) refl

strip_quotes-plain : (text : List ℕ) → has quote text ≡ false → strip_quotes text ≡ text
unfolding strip_quotes
strip_quotes-plain [] h = refl
strip_quotes-plain (c ∷ text) h =
    let e : (c == quote) ≡ false = ground arith in rw (e, strip_quotes) refl

quoted-IsTrimmed : (text : List ℕ) → IsTrimmed (quote ∷ (text ++ (quote ∷ [])))
unfolding is_space strip_right
quoted-IsTrimmed text = (
  strip_left_solid quote (text ++ (quote ∷ [])) refl,
  strip_right-append (quote ∷ text) (quote ∷ []) refl refl,
)

lacking : (a b c : Bool) → (a || (b || c)) ≡ false → (a ≡ false) × (b ≡ false) × (c ≡ false)
lacking a b c h = ground arith

pub quote_if_needed-Rendered :
    (value : List ℕ) → IsValue value → Rendered value (quote_if_needed value)
unfolding quote_if_needed
quote_if_needed-Rendered value v =
    elim (Bool-cases (has b';' value || (has b':' value || has b',' value))) [
      | inl e ↦ rw e (record {
        semicolons = quoted-IsSealed b';' value v.no_quote;
        colons = quoted-IsSealed b':' value v.no_quote;
        commas = quoted-IsSealed b',' value v.no_quote;
        trimmed = quoted-IsTrimmed value;
        back = strip_quotes-quoted value;
      })
      | inr e ↦
          let (semicolon, colon, comma) =
            lacking (has b';' value) (has b':' value) (has b',' value) e in
          rw e (record {
            semicolons = plain-IsSealed b';' value v.no_quote semicolon;
            colons = plain-IsSealed b':' value v.no_quote colon;
            commas = plain-IsSealed b',' value v.no_quote comma;
            trimmed = v.trimmed;
            back = strip_quotes-plain value v.no_quote;
          })
    ]

clean-IsValue : (value : List ℕ) → IsValue value → clean value ≡ value
unfolding clean
clean-IsValue value v =
    ap (λ t. replace lf (b' ' ∷ []) (replace cr (b' ' ∷ []) t))
      (replace-id quote (b'\'' ∷ []) value v.no_quote)
    ∙ (ap (replace lf (b' ' ∷ [])) (replace-id cr (b' ' ∷ []) value v.no_cr)
        ∙ replace-id lf (b' ' ∷ []) value v.no_lf)

pub format_param_value-single :
    (key value : List ℕ)
    → among key multi_valued_params ≡ false
    → IsValue value
    → format_param_value key value ≡ quote_if_needed value
unfolding format_param_value
format_param_value-single key value h v = rw h (ap quote_if_needed (clean-IsValue value v))

pub unquote-Rendered :
    (value text : List ℕ) → Rendered value text → unquote_param_value text ≡ value
unfolding unquote_param_value join
unquote-Rendered value text r =
    ap (λ pieces. join (b',' ∷ []) (map (λ s. strip_quotes (strip s)) pieces))
      (split-IsSealed b',' text r.commas)
    ∙ (ap strip_quotes (strip-IsTrimmed text r.trimmed) ∙ r.back)
