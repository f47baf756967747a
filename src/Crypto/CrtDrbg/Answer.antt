-- ===== src/Crypto/CrtDrbg/Answer.antt =====
-- `getRandomBytes` of src/crypto/crt_drbg.c always answers, and keeps its state in shape.
use remote_drone.Base.{
  ℕ, zero, suc, ◌-◌, ◌<◌, ◌≤◌, true, false, List, Option, some, ◌≡◌, refl, arith, length, All,
  if-keeps_by, inl, inr, Bool-cases, memcpy,
}
use remote_drone.General.Endian.RoundTrip.{IsByte}
use remote_drone.Crypto.Aes.Cipher.{IsBytes}
use remote_drone.Crypto.CrtDrbg.{
  Generator, has_entropy_left, get_seed, ctr_drbg_instantiate, reseed_once, reseed_loop,
  entropy_fuel, ensure_instantiated, answered, get_random_bytes, personalization_len,
  personalization_string,
}
use remote_drone.Crypto.CrtDrbg.Output.{ctr_drbg_generate_lem}
use remote_drone.Crypto.CrtDrbg.Seeding.{
  All-memcpy, IsWorking, IsSource, IsDevice, ctr_drbg_reseed-IsWorking,
  ctr_drbg_instantiate-IsWorking, get_seed-IsSource, get_seed-less,
}

-- The state between two calls: seeded as soon as it is instantiated.
pub record IsGenerator (g : Generator) : Type 0 where
  pub source_shape : IsSource g.source
  pub working_shape : g.instantiated ≡ true → IsWorking g.working_state

module _ (urandom : ℕ → Option (List ℕ)) (unset : ℕ → List ℕ) (device : IsDevice urandom)
    (unset_bytes : (k : ℕ) → IsBytes 32 (unset k)) where
  -- What a reseed keeps.
  abbrev Seeded : List ℕ → Generator → Type 0
  Seeded seed g =
      All IsByte seed × IsSource g.source × IsWorking g.working_state × (g.instantiated ≡ true)

  reseed_once-Seeded :
      (seed : List ℕ) (g : Generator)
      → Seeded seed g
      → let (seed', g') = reseed_once urandom unset seed g in Seeded seed' g'
  unfolding reseed_once
  reseed_once-Seeded seed g (bytes, src, w, on) =
      let got = get_seed urandom personalization_len g.source in
      let (new, src') = get_seed-IsSource urandom personalization_len g.source device src in
      let seed' = All-memcpy seed 0 got.0 bytes new in
      (
        seed',
        src',
        ctr_drbg_reseed-IsWorking (unset 2) (memcpy seed 0 got.0) (length got.0) g.working_state
            (unset_bytes 2) seed' w,
        on,
      )

  reseed_loop-Seeded :
      (fuel : ℕ) (seed : List ℕ) (g : Generator)
      → Seeded seed g
      → let (seed', g') = reseed_loop urandom unset fuel seed g in Seeded seed' g'
  unfolding reseed_loop
  reseed_loop-Seeded zero seed g s = s
  reseed_loop-Seeded (suc fuel) seed g s = elim (Bool-cases (has_entropy_left g.source)) [
    | inl e ↦
        let next = reseed_once urandom unset seed g in
        rw e (reseed_loop-Seeded fuel next.0 next.1 (reseed_once-Seeded seed g s))
    | inr e ↦ rw e s
  ]

  once_less :
      (seed : List ℕ) (g : Generator)
      → has_entropy_left g.source ≡ true
      → let src = (reseed_once urandom unset seed g).1.source in
        src.buffer_size - src.ind < g.source.buffer_size - g.source.ind
  unfolding reseed_once
  once_less seed g e = get_seed-less urandom personalization_len g.source (omega arith) e

  reseed_loop-empty :
      (fuel : ℕ) (seed : List ℕ) (g : Generator)
      → g.source.buffer_size - g.source.ind ≤ fuel
      → has_entropy_left (reseed_loop urandom unset fuel seed g).1.source ≡ false
  unfolding reseed_loop has_entropy_left
  reseed_loop-empty zero seed g le = ground arith
  reseed_loop-empty (suc fuel) seed g le = elim (Bool-cases (has_entropy_left g.source)) [
    | inl e ↦
        let less = once_less seed g e in
        let next = reseed_once urandom unset seed g in
        rw e (reseed_loop-empty fuel next.0 next.1 (omega arith))
    | inr e ↦ rw e e
  ]

  -- The loops that reseed end by their own test: the source has nothing left.
  pub reseed_loop-ends :
      (seed : List ℕ) (g : Generator)
      → IsSource g.source
      → has_entropy_left (reseed_loop urandom unset entropy_fuel seed g).1.source ≡ false
  reseed_loop-ends seed g i = reseed_loop-empty 256 seed g (omega (arith, i.size_le))

  ensure_instantiated-Seeded :
      (seed : List ℕ) (g : Generator)
      → All IsByte seed
      → IsGenerator g
      → let (seed', g') = ensure_instantiated urandom unset seed g in Seeded seed' g'
  unfolding ensure_instantiated
  ensure_instantiated-Seeded seed g a i =
      let got = get_seed urandom personalization_len g.source in
      let (new, src') =
        get_seed-IsSource urandom personalization_len g.source device i.source_shape in
      let seed' = All-memcpy seed 0 got.0 a new in
      let fresh : Generator = record g {
        working_state =
            ctr_drbg_instantiate (unset 2) (memcpy seed 0 got.0) personalization_len
              g.working_state;
        instantiated = true;
        source = got.1;
      } in
      let start : Seeded (memcpy seed 0 got.0) fresh = (
        seed',
        src',
        ctr_drbg_instantiate-IsWorking (unset 2) (memcpy seed 0 got.0) personalization_len
            g.working_state (unset_bytes 2) seed',
        refl,
      ) in
      if-keeps_by (λ (r : List ℕ × Generator). Seeded r.0 r.1) g.instantiated
        (λ e. (a, i.source_shape, i.working_shape e, e))
        (λ e. reseed_loop-Seeded 256 (memcpy seed 0 got.0) fresh start)

  personalization_bytes : All IsByte personalization_string
  personalization_bytes = omega arith

  -- `getRandomBytes` answers with as many bytes as it is asked for, whether the device can be read or
  -- not, and leaves a generator that is instantiated and in shape.
  pub get_random_bytes_lem :
      (nb : ℕ) (g : Generator)
      → IsGenerator g
      → let (answer, g') = get_random_bytes urandom unset nb g in
        ((bytes : List ℕ) × (answer ≡ some bytes) × (length bytes ≡ nb))
        × IsGenerator g'
        × (g'.instantiated ≡ true)
  unfolding get_random_bytes answered
  get_random_bytes_lem nb g i =
      let ready = (ensure_instantiated urandom unset personalization_string g).1 in
      let (_, src, w, on) =
        ensure_instantiated-Seeded personalization_string g personalization_bytes i in
      let (bytes, next, generated, len, next-IsWorking, _) =
        ctr_drbg_generate_lem (unset 0) nb ready.working_state (unset_bytes 0) w in
      rw generated
        ((bytes, refl, len), record { source_shape = src; working_shape = λ _. next-IsWorking }, on)
