-- ===== src/General/Endian.antt =====
-- Byte order, src/general/endian_convert.c.
-- A byte array is a list of bytes and a word array a list of words below 2 ^ 32 (SIZE_32).
-- A function that fills an output array returns it.
pub mod RoundTrip
use Prim.Native.Nat.{bit_or}
use remote_drone.Base.{
  ℕ, zero, suc, ◌+◌, ◌-◌, ◌*◌, ◌/◌, ◌%◌, ◌^◌, List, [], ◌∷◌, ◌++◌, get_or, set, drop,
}

-- `number >> (8 * currentByte)` cut to a byte.
abbrev pub byte_at : ℕ → ℕ → ℕ
byte_at number k = number / 2 ^ (8 * k) % 256

-- `nbBytes` rounds of the byte loop, from `currentByte` on.
unfoldable pub le_bytes : ℕ → ℕ → ℕ → List ℕ
le_bytes zero current_byte number = []
le_bytes (suc rounds) current_byte number =
    byte_at number current_byte ∷ le_bytes rounds (current_byte + 1) number

-- `numToLittleEndian`: four bytes of a uint32_t.
unfoldable pub num_to_little_endian : ℕ → List ℕ
unfolding le_bytes
num_to_little_endian number = le_bytes 4 0 number

-- The loop of `littleEndianToNum`; a shift in uint32_t drops what leaves the 32 bits.
unfoldable pub le_num_loop : ℕ → ℕ → List ℕ → ℕ → ℕ
le_num_loop zero current_byte array res = res
le_num_loop (suc rounds) current_byte array res =
    le_num_loop rounds (current_byte + 1) array
      (bit_or res (get_or array current_byte 0 * 2 ^ (8 * current_byte) % 2 ^ 32))

-- `littleEndianToNum`.
unfoldable pub little_endian_to_num : List ℕ → ℕ → ℕ
unfolding le_num_loop
little_endian_to_num array nb_bytes = le_num_loop nb_bytes 0 array 0

-- `toLittleEndian`: the words one after the other, four bytes each.
unfoldable pub to_little_endian : List ℕ → List ℕ
unfolding le_bytes
to_little_endian [] = []
to_little_endian (w ∷ ws) = le_bytes 4 0 w ++ to_little_endian ws

-- `toWordArray`: each word is read from four bytes, the next word from the bytes behind them.
unfoldable pub to_word_array : List ℕ → ℕ → List ℕ
unfolding le_num_loop
to_word_array array zero = []
to_word_array array (suc nb_words) = le_num_loop 4 0 array 0 ∷ to_word_array (drop 4 array) nb_words

-- One round of `convertEndianness`, in place: the byte at `i` and its mirror change places.
unfoldable pub swap_bytes : ℕ → ℕ → List ℕ → List ℕ
swap_bytes length i array =
    let tmp = get_or array i 0 in
    set (set array i (get_or array (length - i - 1) 0)) (length - i - 1) tmp

unfoldable pub convert_loop : ℕ → ℕ → ℕ → List ℕ → List ℕ
unfolding swap_bytes
convert_loop zero i length array = array
convert_loop (suc rounds) i length array =
    convert_loop rounds (i + 1) length (swap_bytes length i array)

-- `convertEndianness` with `res` the same array as `array`.
unfoldable pub convert_endianness : List ℕ → ℕ → List ℕ
unfolding convert_loop
convert_endianness array length = convert_loop (length / 2) 0 length array
