-- ===== src/Sm/KeyExchange/Verdict.antt =====
-- Where the answer of a handler of src/sm/drone_kep_sm.c or src/sm/bs_kep_sm.c leads: what its code
-- says of the tests it made, and of the next state.
use remote_drone.Base.{
  ℕ, arith, ◌⊎◌, inl, inr, Bool, true, false, ◌&&◌, not, ◌≡◌, refl, if◌then◌else◌,
}
use remote_drone.Sm.Decode.{type_of}
use remote_drone.Sm.SessionInfo.{KepState}
use remote_drone.Sm.SessionReq.{is_new}
use remote_drone.Sm.World.{
  World, received, Code, code_minus_1, code_0, code_1, code_2, code_3, choose,
}

-- What the main programs do between two steps, the first of which left `v`: they poll for a message
-- only when none that is valid or repeated waits, so one that waits is still there in `w`.
abbrev pub Keeps : World → World → Type 0
Keeps v w = (is_new v ≡ false) ⊎ (received w ≡ received v)

-- A message of the type given waits.
abbrev pub IsAwaited : ℕ → World → Type 0
IsAwaited type w = (is_new w ≡ true) × (type_of (received w) ≡ type)

-- It still has that type when the next step looks at it.
pub awaited-type :
    (type : ℕ) (v w : World) → IsAwaited type v → Keeps v w → type_of (received w) ≡ type
awaited-type type v w h (inl e) = absurd (ground (arith, h.0, e))
awaited-type type v w h (inr e) = rw e h.1

-- A handler that returns 0 unless two tests succeed tells both of them.
pub branches :
    (a b : Bool) (x y z : World)
    → let r : World × Code =
        if not a then (x, code_0) else if b then (y, code_1) else (z, code_0) in
      choose r.1 true false ≡ (a && b)
branches true true x y z = refl
branches true false x y z = refl
branches false b x y z = refl

-- A step leads to no state of `V` if neither of its two states is one.
pub neither :
    (V : KepState → Type 0) (c : Code) (s s' : KepState)
    → (V s → ⊥)
    → (V s' → ⊥)
    → V (choose c s s')
    → ⊥
neither V code_minus_1 s s' n n' h = n h
neither V code_0 s s' n n' h = n' h
neither V code_1 s s' n n' h = n h
neither V code_2 s s' n n' h = n h
neither V code_3 s s' n n' h = n h

-- A step that leads to a state of `V`, where the state for the answer 0 is none, had another answer.
pub passed :
    (V : KepState → Type 0) (c : Code) (s s' : KepState)
    → (V s' → ⊥)
    → V (choose c s s')
    → choose c true false ≡ true
passed V code_minus_1 s s' n h = refl
passed V code_0 s s' n h = absurd (n h)
passed V code_1 s s' n h = refl
passed V code_2 s s' n h = refl
passed V code_3 s s' n h = refl
