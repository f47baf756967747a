-- ===== src/Crypto/ModArithmetic.antt =====
-- Multi-word arithmetic, src/crypto/mod_arithmetic.c, at the word size of include/general/word_size.h
-- (SIZE_32: words below 2 ^ 32, SIZE = 8). A word array is a list, least significant word first, and
-- a function that writes `res` returns it. Each loop reads an index before it writes it, so the
-- result is the same where `res` is one of the operands. A read behind the end reads 0 here.
pub mod Value
pub mod AddSub
pub mod Modular
pub mod Halving
use Prim.Native.Nat.{bit_or}
use remote_drone.Base.{
  ℕ, zero, suc, ◌+◌, ◌-◌, ◌*◌, ◌/◌, ◌%◌, ◌^◌, Bool, true, false, List, [], ◌∷◌, get_or, drop, ltb,
  ◌==◌, if◌then◌else◌,
}

abbrev pub word_mod : ℕ
word_mod = 2 ^ 32

abbrev pub array_size : ℕ
array_size = 8

abbrev pub all_one_mask : ℕ
all_one_mask = 0xFFFFFFFF

-- One round of `add_overflow`: the word of the result and the next carry.
unfoldable pub add_word : ℕ → ℕ → ℕ → ℕ × ℕ
add_word carry a b =
    let temp = (a + carry) % word_mod in
    let carry1 = if ltb temp a then 1 else 0 in
    let res = (temp + b) % word_mod in (res, if ltb res temp then 1 else carry1)

unfoldable pub add_loop : ℕ → ℕ → List ℕ → List ℕ → List ℕ × ℕ
add_loop zero carry a b = ([], carry)
add_loop (suc size) carry a b =
    let (res, carry1) = add_word carry (get_or a 0 0) (get_or b 0 0) in
    let (rest, carry2) = add_loop size carry1 (drop 1 a) (drop 1 b) in (res ∷ rest, carry2)

-- `add_overflow`: the result and the carry.
unfoldable pub add_overflow : List ℕ → List ℕ → ℕ → List ℕ × ℕ
add_overflow a b size = add_loop size 0 a b

-- One round of `sub_overflow`; the carry is 0 or ALL_ONE_MASK.
unfoldable pub sub_word : ℕ → ℕ → ℕ → ℕ × ℕ
sub_word carry a b =
    let temp = (a + carry) % word_mod in
    let carry1 = if ltb a temp then all_one_mask else 0 in
    let res = (temp + word_mod - b) % word_mod in
    (res, if ltb temp res then all_one_mask else carry1)

unfoldable pub sub_loop : ℕ → ℕ → List ℕ → List ℕ → List ℕ × ℕ
sub_loop zero carry a b = ([], carry)
sub_loop (suc size) carry a b =
    let (res, carry1) = sub_word carry (get_or a 0 0) (get_or b 0 0) in
    let (rest, carry2) = sub_loop size carry1 (drop 1 a) (drop 1 b) in (res ∷ rest, carry2)

-- `sub_overflow`: the SIZE words of the result and the carry.
unfoldable pub sub_overflow : List ℕ → List ℕ → List ℕ × ℕ
sub_overflow a b = sub_loop array_size 0 a b

-- The loop of `mod_add` from index `i` down: does it reach the subtraction?
unfoldable pub reaches_sub : ℕ → List ℕ → List ℕ → Bool
reaches_sub zero res N = if ltb (get_or res 0 0) (get_or N 0 0) then false else true
reaches_sub (suc i) res N =
    let rest = reaches_sub i res N in
    if ltb (get_or res (suc i) 0) (get_or N (suc i) 0)
    then false
    else if ltb (get_or N (suc i) 0) (get_or res (suc i) 0)
    then true
    else rest

-- `mod_add`.
unfoldable pub mod_add : List ℕ → List ℕ → List ℕ → List ℕ
mod_add a b N =
    let (res, carry) = add_overflow a b array_size in
    if carry == 0
    then if reaches_sub (array_size - 1) res N then (sub_overflow res N).0 else res
    else (sub_overflow res N).0

-- `mod_sub`.
unfoldable pub mod_sub : List ℕ → List ℕ → List ℕ → List ℕ
mod_sub a b N =
    let (res, carry) = sub_overflow a b in
    if carry == 0 then res else (add_overflow res N array_size).0

-- The three answers of `compare`: -1, 0 and 1.
pub data Comparison : Type 0 where
  less same greater : Comparison

-- The loop of `compare` over the indices below `i`, from the highest.
unfoldable pub compare_loop : ℕ → List ℕ → List ℕ → Comparison
compare_loop zero a b = same
compare_loop (suc i) a b =
    let rest = compare_loop i a b in
    if ltb (get_or b i 0) (get_or a i 0)
    then greater
    else if ltb (get_or a i 0) (get_or b i 0)
    then less
    else rest

unfoldable pub compare : List ℕ → List ℕ → Comparison
compare a b = compare_loop array_size a b

-- `divideByTwo` from the most significant word down: the array and the last carry.
unfoldable pub divide_loop : List ℕ → ℕ → List ℕ × ℕ
divide_loop [] curr_carry = ([], curr_carry)
divide_loop (a ∷ as') initial_carry =
    let (rest, curr_carry) = divide_loop as' initial_carry in
    ((if curr_carry == 0 then a / 2 else bit_or (a / 2) (1 * 2 ^ 31)) ∷ rest, a % 2)

unfoldable pub divide_by_two : List ℕ → ℕ → List ℕ
divide_by_two a initial_carry = (divide_loop a initial_carry).0
