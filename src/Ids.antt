-- ===== src/Ids.antt =====
-- src/common/utility/hash.h: a name of ten letters and digits at most, packed into 64 bits.
pub mod RoundTrip
use dungeon_crawler.Base.{
  ltb, ◌==◌, if◌then◌else◌, ◌>>=◌, ◌>>◌, guard, length, get_elem?, ℕ, zero, suc, ◌+◌, ◌*◌, ◌/◌, ◌%◌,
  ◌^◌, Option, none, some, List, [], ◌∷◌,
}
use Prim.Native.Char.{code}
use Prim.Native.String.{String}

-- The code points of a text, which is ASCII
abbrev pub codes : String → List ℕ
codes String.[] = []
codes (String.◌∷◌ c s) = code c ∷ codes s

abbrev pub charset : List ℕ
charset = codes "abcdefghijklmnopqrstuvwxyzABCDEFGHIJKLMNOPQRSTUVWXYZ0123456789"

abbrev pub max_packed_len : ℕ
max_packed_len = 10

-- `kCharset.find(c)`
unfoldable pub find_index : ℕ → List ℕ → Option ℕ
find_index c [] = none
find_index c (a ∷ as_rest) =
    let later = find_index c as_rest in if a == c then some 0 else (do i ← later; some (suc i))

-- The loop of `EncodeString`. The six bits of each character are free in the code, so that `|` adds them.
unfoldable pub encode_chars : List ℕ → ℕ → ℕ → Option ℕ
encode_chars [] place packed = some packed
encode_chars (c ∷ s) place packed = do
  idx ← find_index c charset
  encode_chars s (place + 1) (packed + idx * 2 ^ (6 * place))

unfoldable pub encode_string : List ℕ → Option ℕ
encode_string s =
    if ltb max_packed_len (length s) then none else encode_chars s 0 (length s * 2 ^ 60)

-- The loop of `DecodeString`, with the characters that are left
unfoldable pub decode_chars : ℕ → ℕ → ℕ → Option (List ℕ)
decode_chars zero i packed = some []
decode_chars (suc left) i packed = do
  c ← get_elem? charset (packed / 2 ^ (6 * i) % 2 ^ 6)
  s ← decode_chars left (i + 1) packed
  some (c ∷ s)

-- `code & check_mask`: the bits between the characters and the length
unfoldable pub stray_bits : ℕ → ℕ → ℕ
stray_bits len packed = packed % 2 ^ 60 / 2 ^ (6 * len)

unfoldable pub decode_string : ℕ → Option (List ℕ)
decode_string packed =
    let len = packed / 2 ^ 60 % 2 ^ 4 in
    if ltb max_packed_len len
    then none
    else (do s ← decode_chars len 0 packed; guard (stray_bits len packed == 0); some s)
