-- ===== src/Gateway/Numerals.antt =====
-- The texts and numbers that the route table is made of, as the standard library reads them for
-- src/network_traversal/gateway.rs: `lines`, `split_whitespace`, `from_str_radix`, `leading_ones`. A
-- text is its code points; its length in bytes is that of its UTF-8 form.
use liskov_runtime_cargo.Prelude.{
  ℕ, zero, suc, ◌+◌, ◌-◌, ◌*◌, ◌^◌, Bool, true, false, not, ◌&&◌, ◌||◌, Option, none, some, List,
  [], ◌∷◌, ◌++◌, ◌==◌, ltb, leb, if◌then◌else◌, retain, any, u32_max,
}
use liskov_runtime_cargo.Prelude.Maybe.{◌>>=◌}

abbrev pub Text : Type 0
Text = List ℕ

abbrev pub utf8_width : ℕ → ℕ
utf8_width c = if ltb c 128 then 1 else (if ltb c 2_048 then 2 else (if ltb c 65_536 then 3 else 4))

-- `str::len`.
unfoldable pub byte_len : Text → ℕ
byte_len [] = 0
byte_len (c ∷ cs) = utf8_width c + byte_len cs

-- `char::is_whitespace`.
abbrev pub is_whitespace : ℕ → Bool
is_whitespace c =
    (leb 9 c && leb c 13)
    || (leb 8_192 c && leb c 8_202)
    || any (λ w. w == c) (32 ∷ 133 ∷ 160 ∷ 5_760 ∷ 8_232 ∷ 8_233 ∷ 8_239 ∷ 8_287 ∷ 12_288 ∷ [])

abbrev pub no_text : Text → Bool
no_text [] = true
no_text (c ∷ cs) = false

-- The parts between characters that separate, with the part that is being read.
unfoldable pub split_by : (ℕ → Bool) → Text → Text → List Text
split_by separates part [] = part ∷ []
split_by separates part (c ∷ cs) =
    let closed = part ∷ split_by separates [] cs in
    let longer = split_by separates (part ++ c ∷ []) cs in if separates c then closed else longer

unfoldable pub split_whitespace : Text → List Text
split_whitespace text = retain (λ part. not (no_text part)) (split_by is_whitespace [] text)

-- A line that a line feed ends loses one carriage return before it.
unfoldable pub strip_return : Text → Text
strip_return [] = []
strip_return (c ∷ []) = if c == 13 then [] else c ∷ []
strip_return (c ∷ cs) = c ∷ strip_return cs

-- `str::lines`, with the line that is being read.
unfoldable pub lines_from : Text → Text → List Text
lines_from line [] = if no_text line then [] else line ∷ []
lines_from line (c ∷ cs) =
    let closed = strip_return line ∷ lines_from [] cs in
    let longer = lines_from (line ++ c ∷ []) cs in if c == 10 then closed else longer

abbrev pub lines : Text → List Text
lines text = lines_from [] text

unfoldable pub starts_with : Text → Text → Bool
starts_with [] text = true
starts_with (p ∷ ps) [] = false
starts_with (p ∷ ps) (c ∷ cs) = p == c && starts_with ps cs

-- `char::to_digit` for a radix up to sixteen.
unfoldable pub to_digit : ℕ → ℕ → Option ℕ
to_digit radix c =
    let value =
      if leb 48 c && leb c 57
      then some (c - 48)
      else (if leb 65 c && leb c 70
          then some (c - 55)
          else (if leb 97 c && leb c 102 then some (c - 87) else none)) in
    value >>= λ digit. if ltb digit radix then some digit else none

-- The digits of a u32, with its value so far; a value that does not fit is refused.
unfoldable pub u32_digits : ℕ → ℕ → Text → Option ℕ
u32_digits radix value [] = some value
u32_digits radix value (c ∷ cs) = to_digit radix c >>= λ digit.
    let rest = u32_digits radix (value * radix + digit) cs in
    if leb (value * radix + digit) u32_max then rest else none

unfoldable pub u32_unsigned : ℕ → Text → Option ℕ
u32_unsigned radix [] = none
u32_unsigned radix (c ∷ cs) = u32_digits radix 0 (c ∷ cs)

-- `u32::from_str_radix`: one plus sign may stand before the digits.
unfoldable pub u32_from_str_radix : ℕ → Text → Option ℕ
u32_from_str_radix radix [] = none
u32_from_str_radix radix (c ∷ cs) =
    if c == b'+' then u32_unsigned radix cs else u32_unsigned radix (c ∷ cs)

-- `leading_ones` of a word of `width` bits.
unfoldable pub leading_ones : ℕ → ℕ → ℕ
leading_ones zero bits = 0
leading_ones (suc width) bits =
    let more = leading_ones width (bits - 2 ^ width) in if leb (2 ^ width) bits then suc more else 0
