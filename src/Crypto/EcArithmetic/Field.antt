-- ===== src/Crypto/EcArithmetic/Field.antt =====
-- The residues that the constants of src/general/params.c stand for, and the operations of
-- src/crypto/ec_arithmetic.c on residues modulo the prime of the curve.
use remote_drone.Base.{ℕ, ◌-◌, List, ◌≡◌, refl, arith}
use remote_drone.Crypto.ModArithmetic.Value.{value}
use remote_drone.Crypto.Montgomery.Domain.{Represents, IsModulus, radix}
use remote_drone.Crypto.CurveParams.{
  p, p_prime, rp_2, n, n_prime, zero_words, one_words, one_mont, a_mont, b_mont, g_x_mont, g_y_mont,
}

-- The prime, the order, and the second coefficient as numbers; the first coefficient is -3.
abbrev pub prime : ℕ
prime = 0xFFFFFFFF00000001000000000000000000000000FFFFFFFFFFFFFFFFFFFFFFFF

abbrev pub order : ℕ
order = 0xFFFFFFFF00000000FFFFFFFFFFFFFFFFBCE6FAADA7179E84F3B9CAC2FC632551

abbrev pub coefficient_a : ℕ
coefficient_a = prime - 3

abbrev pub coefficient_b : ℕ
coefficient_b = 0x5AC635D8AA3A93E7B3EBBD55769886BC651D06B0CC53B0F63BCE3C3E27D2604B

pub value-p : value p ≡ prime
unfolding value
value-p = refl

pub value-n : value n ≡ order
unfolding value
value-n = refl

-- The inverses of 2 ^ 256.
abbrev pub inverse_p : ℕ
inverse_p = 0xFFFFFFFE00000003FFFFFFFD0000000200000001FFFFFFFE0000000300000000

abbrev pub inverse_n : ℕ
inverse_n = 0x60D066334905C1E907F8B6041E607725BADEF3E243566FAFCE1BC8F79C197C79

pub p-IsModulus : IsModulus p p_prime inverse_p
unfolding value
p-IsModulus = record {
  modulus_array = (refl, omega arith);
  big = omega arith;
  word_inverse = refl;
  radix_inverse = refl;
}

pub n-IsModulus : IsModulus n n_prime inverse_n
unfolding value
n-IsModulus = record {
  modulus_array = (refl, omega arith);
  big = omega arith;
  word_inverse = refl;
  radix_inverse = refl;
}

abbrev pub Residue : List ℕ → ℕ → Type 0
Residue x a = Represents p x a

pub zero_words-Residue : Residue zero_words 0
unfolding value
zero_words-Residue = record { array = (refl, omega arith); reduced = omega arith; form = refl }

pub one_mont-Residue : Residue one_mont 1
unfolding value
one_mont-Residue = record { array = (refl, omega arith); reduced = omega arith; form = refl }

pub a_mont-Residue : Residue a_mont coefficient_a
unfolding value
a_mont-Residue = record { array = (refl, omega arith); reduced = omega arith; form = refl }

pub b_mont-Residue : Residue b_mont coefficient_b
unfolding value
b_mont-Residue = record { array = (refl, omega arith); reduced = omega arith; form = refl }

-- `rp_2` is the form of 2 ^ 256, and `one_words` that of its inverse.
pub rp_2-Residue : Residue rp_2 radix
unfolding value
rp_2-Residue = record { array = (refl, omega arith); reduced = omega arith; form = refl }

pub one_words-Residue : Residue one_words inverse_p
unfolding value
one_words-Residue = record { array = (refl, omega arith); reduced = omega arith; form = refl }

-- The coordinates of the generator.
abbrev pub generator_x : ℕ
generator_x = 0x6B17D1F2E12C4247F8BCE6E563A440F277037D812DEB33A0F4A13945D898C296

abbrev pub generator_y : ℕ
generator_y = 0x4FE342E2FE1A7F9B8EE7EB4A7C0F9E162BCE33576B315ECECBB6406837BF51F5

pub g_x_mont-Residue : Residue g_x_mont generator_x
unfolding value
g_x_mont-Residue = record { array = (refl, omega arith); reduced = omega arith; form = refl }

pub g_y_mont-Residue : Residue g_y_mont generator_y
unfolding value
g_y_mont-Residue = record { array = (refl, omega arith); reduced = omega arith; form = refl }
