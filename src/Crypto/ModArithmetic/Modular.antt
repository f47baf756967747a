-- ===== src/Crypto/ModArithmetic/Modular.antt =====
-- `mod_add` and `mod_sub` of src/crypto/mod_arithmetic.c compute modulo N.
use remote_drone.Base.{
  ℕ, ◌+◌, ◌-◌, ◌*◌, ◌%◌, ◌^◌, ◌≤◌, ◌<◌, true, false, List, ◌≡◌, arith, ◌==◌, ◌⊎◌, inl, inr,
  Bool-cases,
}
use remote_drone.Crypto.ModArithmetic.{
  word_mod, array_size, add_overflow, sub_overflow, reaches_sub, mod_add, mod_sub,
}
use remote_drone.Crypto.ModArithmetic.Value.{IsArray, value, value-lt, take_all}
use remote_drone.Crypto.ModArithmetic.AddSub.{
  add_overflow_exact, sub_overflow_exact, reaches_sub_iff,
}

mod_unique : (s m r : ℕ) → r < m → (s ≡ r) ⊎ (s ≡ r + m) → r ≡ s % m
mod_unique s m r h (inl e) = grind arith
mod_unique s m r h (inr e) = grind arith

pub value-lt-256 : (ws : List ℕ) → IsArray array_size ws → value ws < word_mod ^ 8
value-lt-256 ws h = rw h.0 at (value-lt ws h.1)

-- The test of `mod_add` on whole arrays.
reaches_sub-whole :
    (r N : List ℕ)
    → IsArray array_size r
    → IsArray array_size N
    → ((reaches_sub 7 r N ≡ true) × (value N ≤ value r))
      ⊎ ((reaches_sub 7 r N ≡ false) × (value r < value N))
reaches_sub-whole r N hr hN =
    let iff = reaches_sub_iff 7 r N (omega arith) (omega arith) hr.1 hN.1 in
    ground (arith, iff, take_all 8 r hr.0, take_all 8 N hN.0)

module _ (a b N : List ℕ) (ha : IsArray array_size a) (hb : IsArray array_size b)
    (hN : IsArray array_size N) where
  -- `mod_add` on operands whose sum is below twice the modulus, so on operands below the modulus and
  -- on a 256-bit number and 0 when the modulus has its highest bit set, gives the sum modulo N.
  pub mod_add_lem :
      value a + value b < 2 * value N
      → (value (mod_add a b N) ≡ (value a + value b) % value N) × IsArray array_size (mod_add a b N)
  unfolding mod_add
  mod_add_lem h =
      let (sum, array, bit) = add_overflow_exact a b ha hb in
      let r = (add_overflow a b array_size).0 in
      let (diff, array', borrow) = sub_overflow_exact r N array hN in
      let below = value-lt-256 r array in
      let below' = value-lt-256 (sub_overflow r N).0 array' in
      let size = reaches_sub-whole r N array hN in
      let unique = mod_unique (value a + value b) (value N) in
      elim (Bool-cases ((add_overflow a b array_size).1 == 0)) [
        | inl z ↦ elim size [
          | inl (e, ge) ↦
              rw (z, e)
                (unique (value (sub_overflow r N).0) (ground arith) (inr (ground arith)), array')
          | inr (e, lt) ↦ rw (z, e) (unique (value r) lt (inl (ground arith)), array)
        ]
        | inr z ↦
            rw z (unique (value (sub_overflow r N).0) (ground arith) (inr (ground arith)), array')
      ]

  -- `mod_sub` on operands below the modulus gives the difference modulo N.
  pub mod_sub_lem :
      value a < value N
      → value b < value N
      → (value (mod_sub a b N) ≡ (value a + value N - value b) % value N)
        × IsArray array_size (mod_sub a b N)
  unfolding mod_sub
  mod_sub_lem h k =
      let (diff, array, borrow) = sub_overflow_exact a b ha hb in
      let r = (sub_overflow a b).0 in
      let (sum, array', bit) = add_overflow_exact r N array hN in
      let below = value-lt-256 r array in
      let below' = value-lt-256 (add_overflow r N array_size).0 array' in
      let unique = mod_unique (value a + value N - value b) (value N) in
      elim (Bool-cases ((sub_overflow a b).1 == 0)) [
        | inl z ↦ rw z (unique (value r) (ground arith) (inr (ground arith)), array)
        | inr z ↦ rw z (
          unique (value (add_overflow r N array_size).0) (ground arith) (inl (ground arith)),
          array',
        )
      ]
