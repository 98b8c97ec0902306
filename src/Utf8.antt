-- ===== src/Utf8.antt =====
-- `std::str::from_utf8`, as far as the vault format uses it: whether bytes are well-formed UTF-8.
-- A Rust `String` that is read from bytes or written as bytes is modelled by its bytes.
use gabbro.Prelude.{
  ℕ, Bool, true, false, ◌&&◌, Option, none, some, List, [], ◌∷◌, ltb, leb, ◌==◌, if◌then◌else◌,
}
use gabbro.Bytes.{Bytes}

-- The ranges that the bytes after a lead byte have to fall in.
abbrev pub Ranges : Type 0
Ranges = List (ℕ × ℕ)

abbrev continuation : ℕ × ℕ
continuation = (0x80, 0xbf)

-- The well-formed sequences of the Unicode standard (table 3-7), by their first byte.
unfoldable pub lead : ℕ → Option Ranges
lead b =
    if ltb b 0x80
    then some []
    else if ltb b 0xc2
    then none
    else if ltb b 0xe0
    then some (continuation ∷ [])
    else if b == 0xe0
    then some ((0xa0, 0xbf) ∷ continuation ∷ [])
    else if b == 0xed
    then some ((0x80, 0x9f) ∷ continuation ∷ [])
    else if ltb b 0xf0
    then some (continuation ∷ continuation ∷ [])
    else if b == 0xf0
    then some ((0x90, 0xbf) ∷ continuation ∷ continuation ∷ [])
    else if ltb b 0xf4
    then some (continuation ∷ continuation ∷ continuation ∷ [])
    else if b == 0xf4
    then some ((0x80, 0x8f) ∷ continuation ∷ continuation ∷ [])
    else none

unfoldable pub is_utf8_from : Ranges → Bytes → Bool
unfolding lead
is_utf8_from [] [] = true
is_utf8_from (r ∷ rs) [] = false
is_utf8_from ((lo, hi) ∷ rs) (b ∷ bs) = elim (leb lo b && leb b hi) [
  | true ↦ is_utf8_from rs bs
  | false ↦ false
]
is_utf8_from [] (b ∷ bs) = elim (lead b) [ none ↦ false | some rs ↦ is_utf8_from rs bs ]

unfoldable pub is_utf8 : Bytes → Bool
unfolding is_utf8_from
is_utf8 bs = is_utf8_from [] bs
