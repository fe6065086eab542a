-- ===== src/Types/Direction.antt =====
-- src/common/types/direction.h. The enumeration is a byte: `raw` stands for a value that no
-- enumerator names, which a cast from a byte can produce.
use dungeon_crawler.Base.{ℕ, ◌≡◌, refl, ◌↔◌, Option, none, some, arith, ◌==◌, if◌then◌else◌, ◌>>=◌}
use Prim.Native.String.{String}
use text.Mathlib.Text.{◌==◌ as str_eq}

pub data Direction : Type 0 where
  up down left right : Direction
  raw : ℕ → Direction

unfoldable pub direction_to_string : Direction → Option String
direction_to_string up = some "UP"
direction_to_string down = some "DOWN"
direction_to_string left = some "LEFT"
direction_to_string right = some "RIGHT"
direction_to_string (raw n) = none

unfoldable pub direction_from_string : String → Option Direction
direction_from_string s =
    if str_eq s "UP"
    then some up
    else if str_eq s "DOWN"
    then some down
    else if str_eq s "LEFT"
    then some left
    else if str_eq s "RIGHT"
    then some right
    else none

-- `static_cast<Direction>(value)`
unfoldable pub cast_direction : ℕ → Direction
cast_direction value =
    if value == 0
    then up
    else if value == 1
    then down
    else if value == 2
    then left
    else if value == 3
    then right
    else raw value

-- The cases of the switch.
unfoldable pub named : Direction → Option Direction
named up = some up
named down = some down
named left = some left
named right = some right
named (raw n) = none

unfoldable pub byte_to_direction : ℕ → Option Direction
unfolding cast_direction named
byte_to_direction value = named (cast_direction value)

unfoldable pub direction_to_byte : Direction → Option ℕ
direction_to_byte up = some 0
direction_to_byte down = some 1
direction_to_byte left = some 2
direction_to_byte right = some 3
direction_to_byte (raw n) = none

-- A byte is read as a direction exactly when that direction is written as this byte.
pub byte_direction_iff :
    (b : ℕ) (d : Direction) → (byte_to_direction b ≡ some d) ↔ (direction_to_byte d ≡ some b)
unfolding byte_to_direction direction_to_byte
byte_direction_iff b up = ground arith
byte_direction_iff b down = ground arith
byte_direction_iff b left = ground arith
byte_direction_iff b right = ground arith
byte_direction_iff b (raw n) = ground arith

-- Printing and reading a direction with an enumerator gives it back; a value with no enumerator
-- has no name.
pub direction_string_round :
    (d : Direction) → (direction_to_string d >>= direction_from_string) ≡ named d
unfolding direction_to_string direction_from_string named
direction_string_round up = refl
direction_string_round down = refl
direction_string_round left = refl
direction_string_round right = refl
direction_string_round (raw n) = refl
