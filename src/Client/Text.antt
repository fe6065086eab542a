-- ===== src/Client/Text.antt =====
-- src/common/utility/string_utils.h, and the words that a stream reads from a line.
use dungeon_crawler.Base.{
  ltb, leb, ◌==◌, if◌then◌else◌, is_nil, ℕ, ◌+◌, ◌-◌, ◌*◌, ◌^◌, Bool, ◌&&◌, ◌||◌, Option, none,
  some, List, [], ◌∷◌,
}

-- " \t\n\r\f\v", which is also the white space of a stream.
unfoldable pub is_space : ℕ → Bool
is_space c = (c == 32) || (leb 9 c && leb c 13)

abbrev pub skip_space : List ℕ → List ℕ
skip_space [] = []
skip_space (c ∷ s) = let rest = skip_space s in if is_space c then rest else c ∷ s

-- What `find_last_not_of` leaves
abbrev pub drop_trailing : List ℕ → List ℕ
drop_trailing [] = []
drop_trailing (c ∷ s) =
    let rest = drop_trailing s in if is_nil rest && is_space c then [] else c ∷ rest

unfoldable pub trim_whitespace : List ℕ → List ℕ
trim_whitespace s = drop_trailing (skip_space s)

-- `iss >> word`: the word, and the rest of the line. There may be no word.
abbrev pub word_of : List ℕ → List ℕ
word_of [] = []
word_of (c ∷ s) = let rest = word_of s in if is_space c then [] else c ∷ rest

abbrev pub behind_word : List ℕ → List ℕ
behind_word [] = []
behind_word (c ∷ s) = let rest = behind_word s in if is_space c then c ∷ s else rest

unfoldable pub read_word : List ℕ → Option (List ℕ × List ℕ)
read_word line =
    let text = skip_space line in
    if is_nil text then none else some (word_of text, behind_word text)

-- `std::from_chars` for an unsigned number of 64 bits: the digits at the front, with what is behind them; no
-- digit and too large a number are errors.
unfoldable pub is_digit : ℕ → Bool
is_digit c = leb b'0' c && leb c b'9'

abbrev pub digits_value : ℕ → List ℕ → Option (ℕ × List ℕ)
digits_value acc [] = some (acc, [])
digits_value acc (c ∷ s) =
    let more = digits_value (acc * 10 + (c - b'0')) s in
    if is_digit c then more else some (acc, c ∷ s)

unfoldable pub fits_uint64 : Option (ℕ × List ℕ) → Option (ℕ × List ℕ)
fits_uint64 none = none
fits_uint64 (some (n, rest)) = if ltb n (2 ^ 64) then some (n, rest) else none

unfoldable pub from_chars : List ℕ → Option (ℕ × List ℕ)
from_chars [] = none
from_chars (c ∷ s) = if is_digit c then fits_uint64 (digits_value 0 (c ∷ s)) else none

-- `convertStringToUint64`
unfoldable pub whole_number : Option (ℕ × List ℕ) → Option ℕ
whole_number none = none
whole_number (some (n, rest)) = if is_nil rest then some n else none

unfoldable pub convert_string_to_uint64 : List ℕ → Option ℕ
convert_string_to_uint64 num_str = whole_number (from_chars (trim_whitespace num_str))
