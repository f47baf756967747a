-- ===== src/Sm/Encode/Layout.antt =====
-- The header that `encodeMessage` (src/sm/enc_dec.c) writes, field by field.
use remote_drone.Base.{
  ℕ, ◌^◌, ◌≤◌, ◌<◌, List, [], ◌∷◌, ◌++◌, get_or, take, drop, take_whole, length, length-drop,
  length-append, length-take, take-append, drop-append, drop-drop, memcpy, memcpy-behind,
  append_assoc, ◌≡◌, refl, sym, ◌∙◌, arith, All,
}
use remote_drone.General.Endian.{num_to_little_endian, little_endian_to_num, le_num_loop, le_bytes}
use remote_drone.General.Endian.RoundTrip.{
  IsByte, le_value, little_endian_to_num-eq-le_value, little_endian_to_num-num_to_little_endian,
}
use remote_drone.Sm.Params.{field_target_nb, field_header_nb, aegis_iv_nb}
use remote_drone.Sm.Encode.{encode_message}

length-num : (n : ℕ) → length (num_to_little_endian n) ≡ 4
unfolding num_to_little_endian le_bytes
length-num n = refl

-- The header: type, length, IV, target ID, and sequence number.
abbrev pub header : ℕ → ℕ → List ℕ → ℕ → List ℕ → List ℕ
header type length target_id seq_nb iv =
    ((((type ∷ []) ++ take 3 (num_to_little_endian length)) ++ iv) ++ target_id)
    ++ num_to_little_endian seq_nb

-- `encodeMessage` puts the header into the array, leaves what is behind it, and returns its length.
pub encode_message-header :
    (message : List ℕ) (type nb : ℕ) (target_id : List ℕ) (seq_nb : ℕ) (iv : List ℕ)
    → field_header_nb ≤ length message
    → length target_id ≡ field_target_nb
    → length iv ≡ aegis_iv_nb
    → encode_message message type nb target_id seq_nb iv
      ≡ (header type nb target_id seq_nb iv ++ drop field_header_nb message, field_header_nb)
unfolding encode_message
encode_message-header [] type nb target_id seq_nb iv room ht hi = absurd (omega arith)
encode_message-header (x ∷ xs) type nb target_id seq_nb iv room ht hi =
    let l3 = take 3 (num_to_little_endian nb) in
    let s4 = num_to_little_endian seq_nb in
    let n3 : length l3 ≡ 3 =
      omega (arith, length-take 3 (num_to_little_endian nb), length-num nb) in
    let n4 : length s4 ≡ 4 = length-num seq_nb in
    let f1 : List ℕ = type ∷ [] in
    let f2 : List ℕ = f1 ++ l3 in
    let f3 : List ℕ = f2 ++ iv in
    let f4 : List ℕ = f3 ++ target_id in
    let h2 : length f2 ≡ 4 = omega (arith, n3) in
    let h3 : length f3 ≡ 20 = omega (arith, h2, hi, length-append f2 iv) in
    let h4 : length f4 ≡ 28 = omega (arith, h3, ht, length-append f3 target_id) in
    let d3 = drop 3 xs in
    let d19 = drop 16 d3 in
    let d27 = drop 8 d19 in
    let r3 : 28 ≤ length d3 = omega (arith, length-drop 3 xs) in
    let r19 : 12 ≤ length d19 = omega (arith, length-drop 16 d3) in
    let r27 : 4 ≤ length d27 = omega (arith, length-drop 8 d19) in
    let e1 : memcpy (type ∷ xs) 1 l3 ≡ f2 ++ d3 =
      rw n3 at (memcpy-behind f1 xs l3 1 refl (omega (arith, n3))) in
    let e2 : memcpy (f2 ++ d3) 4 iv ≡ f3 ++ d19 =
      rw hi at (memcpy-behind f2 d3 iv 4 (sym h2) (omega arith)) in
    let e3 : memcpy (f3 ++ d19) 20 target_id ≡ f4 ++ d27 =
      rw ht at (memcpy-behind f3 d19 target_id 20 (sym h3) (omega arith)) in
    let e4 : memcpy (f4 ++ d27) 28 s4 ≡ (f4 ++ s4) ++ drop 4 d27 =
      rw n4 at (memcpy-behind f4 d27 s4 28 (sym h4) (omega arith)) in
    let rest : drop 4 d27 ≡ drop 31 xs =
      drop-drop 4 8 12 d19 refl ∙ drop-drop 12 16 28 d3 refl ∙ drop-drop 28 3 31 xs refl in
    rw
      (
        take_whole 16 iv (omega arith),
        take_whole 8 target_id (omega arith),
        take_whole 4 s4 (omega arith),
        e1,
        e2,
        e3,
        e4,
        rest,
      )
      refl

pub length-header :
    (type nb : ℕ) (target_id : List ℕ) (seq_nb : ℕ) (iv : List ℕ)
    → length target_id ≡ field_target_nb
    → length iv ≡ aegis_iv_nb
    → length (header type nb target_id seq_nb iv) ≡ field_header_nb
length-header type nb target_id seq_nb iv ht hi = omega (
  arith,
  length-append (f2 ++ iv) target_id,
  length-append f2 iv,
  length-num seq_nb,
  length-append ((f2 ++ iv) ++ target_id) (num_to_little_endian seq_nb),
  length-take 3 (num_to_little_endian nb),
  length-num nb,
  ht,
  hi,
)
  where
    f2 : List ℕ
    f2 = (type ∷ []) ++ take 3 (num_to_little_endian nb)

read_three :
    (nb : ℕ) (rest : List ℕ)
    → nb < 2 ^ 24
    → little_endian_to_num (take 3 (num_to_little_endian nb) ++ rest) 3 ≡ nb
unfolding num_to_little_endian le_bytes
read_three nb rest h =
    let l3 : List ℕ = take 3 (num_to_little_endian nb) in
    let bytes : All IsByte l3 = (omega arith, (omega arith, (omega arith, tt))) in
    let alone : little_endian_to_num (l3 ++ rest) 3 ≡ little_endian_to_num l3 3 =
      unfold little_endian_to_num le_num_loop in refl in
    alone
    ∙ little_endian_to_num-eq-le_value 3 l3 (omega arith) (omega arith) bytes
    ∙ (unfold le_value in (omega arith))

-- A receiver finds the fields where `encodeMessage` put them, if the length fits its three bytes.
pub header-fields :
    (type nb : ℕ) (target_id : List ℕ) (seq_nb : ℕ) (iv rest : List ℕ)
    → length target_id ≡ field_target_nb
    → length iv ≡ aegis_iv_nb
    → nb < 2 ^ 24
    → seq_nb < 2 ^ 32
    → let m = header type nb target_id seq_nb iv ++ rest in
      (get_or m 0 0 ≡ type)
      × (little_endian_to_num (drop 1 m) 3 ≡ nb)
      × (take 16 (drop 4 m) ≡ iv)
      × (take 8 (drop 20 m) ≡ target_id)
      × (little_endian_to_num (drop 28 m) 4 ≡ seq_nb)
header-fields type nb target_id seq_nb iv rest ht hi hn hs =
    let l3 : List ℕ = take 3 (num_to_little_endian nb) in
    let s4 = num_to_little_endian seq_nb in
    let n3 : length l3 ≡ 3 =
      omega (arith, length-take 3 (num_to_little_endian nb), length-num nb) in
    let f2 : List ℕ = type ∷ l3 in
    let f3 : List ℕ = f2 ++ iv in
    let f4 : List ℕ = f3 ++ target_id in
    let h3 : length f3 ≡ 20 = omega (arith, n3, hi, length-append f2 iv) in
    let h4 : length f4 ≡ 28 = omega (arith, h3, ht, length-append f3 target_id) in
    let g4 : (f4 ++ s4) ++ rest ≡ f4 ++ (s4 ++ rest) = append_assoc f4 s4 rest in
    let g3 : f4 ++ (s4 ++ rest) ≡ f3 ++ (target_id ++ (s4 ++ rest)) =
      append_assoc f3 target_id (s4 ++ rest) in
    let g2 : f3 ++ (target_id ++ (s4 ++ rest)) ≡ f2 ++ (iv ++ (target_id ++ (s4 ++ rest))) =
      append_assoc f2 iv (target_id ++ (s4 ++ rest)) in
    (
      refl,
      rw (g4, g3, g2) (read_three nb (iv ++ (target_id ++ (s4 ++ rest))) hn),
      rw
          (
            g4,
            g3,
            g2,
            drop-append 4 f2 (iv ++ (target_id ++ (s4 ++ rest))) (omega (arith, n3)),
            take-append 16 iv (target_id ++ (s4 ++ rest)) (omega arith),
          )
          refl,
      rw
          (
            g4,
            g3,
            drop-append 20 f3 (target_id ++ (s4 ++ rest)) (omega arith),
            take-append 8 target_id (s4 ++ rest) (omega arith),
          )
          refl,
      rw (g4, drop-append 28 f4 (s4 ++ rest) (omega arith))
          (little_endian_to_num-num_to_little_endian seq_nb rest hs),
    )

-- The IV in the header, for any length and number.
pub header-iv :
    (type nb : ℕ) (target_id : List ℕ) (seq_nb : ℕ) (iv : List ℕ)
    → length iv ≡ aegis_iv_nb
    → take 16 (drop 4 (header type nb target_id seq_nb iv)) ≡ iv
header-iv type nb target_id seq_nb iv hi =
    let s4 = num_to_little_endian seq_nb in
    let f2 : List ℕ = (type ∷ []) ++ take 3 (num_to_little_endian nb) in
    let n2 : length f2 ≡ 4 =
      omega (arith, length-take 3 (num_to_little_endian nb), length-num nb) in
    let regrouped : ((f2 ++ iv) ++ target_id) ++ s4 ≡ f2 ++ (iv ++ (target_id ++ s4)) =
      append_assoc (f2 ++ iv) target_id s4 ∙ append_assoc f2 iv (target_id ++ s4) in
    rw
      (
        regrouped,
        drop-append 4 f2 (iv ++ (target_id ++ s4)) (omega arith),
        take-append 16 iv (target_id ++ s4) (omega arith),
      )
      refl
