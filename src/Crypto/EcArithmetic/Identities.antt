-- ===== src/Crypto/EcArithmetic/Identities.antt =====
-- The identities behind the formulas of src/crypto/ec_arithmetic.c: what they make of a point on the
-- curve lies on the curve. They hold modulo any number.
use remote_drone.Base.{ℕ, ◌+◌, ◌*◌, sym, arith}
use remote_drone.Base.Congruence.{Congruent, times, ◌⊞◌, Congruent-combine}

abbrev pub cube : ℕ → ℕ
cube x = x * x * x

-- The tangent: M = 3 x^2 + A is its slope, T stands for S - X and Y for M T - 8 y^4.
pub tangent_identity :
    (m x y A B X T Y : ℕ)
    → let M = 3 * (x * x) + A in
      let S = 4 * (x * (y * y)) in
      let y_4 = y * y * (y * y) in
      Congruent m (X + 2 * S) (M * M)
      → Congruent m (T + X) S
      → Congruent m (Y + 8 * y_4) (M * T)
      → Congruent m (y * y) (cube x + A * x + B)
      → Congruent m (Y * Y) (cube X + 16 * (A * y_4) * X + 64 * (y_4 * (y * y)) * B)
tangent_identity m x y A B X T Y e1 e2 e3 e4 =
    let M = 3 * (x * x) + A in
    let S = 4 * (x * (y * y)) in
    let y_4 = y * y * (y * y) in
    Congruent-combine m (Y * Y) (cube X + 16 * (A * y_4) * X + 64 * (y_4 * (y * y)) * B)
      (times m (Y + M * T) (Y + 8 * y_4) (M * T) e3
        ⊞ times m (8 * y_4) (M * T) (Y + 8 * y_4) (sym e3)
        ⊞ times m (T * T) (M * M) (X + 2 * S) (sym e1)
        ⊞ times m ((T + S) * (X + 2 * S)) (T + X) S e2
        ⊞ times m (X * (X + 2 * S)) S (T + X) (sym e2)
        ⊞ times m (16 * y_4 * M) S (T + X) (sym e2)
        ⊞ times m (64 * (y_4 * (y * y))) (y * y) (cube x + A * x + B) e4)
      (omega arith)

-- The chord through two points of the curve: H and D are the differences of their coordinates, T
-- stands for U H^2 - X and Y for D T - S H^3.
pub chord_identity :
    (m U S H D A B X T Y : ℕ)
    → let V = U * (H * H) in
      Congruent m (X + cube H + 2 * V) (D * D)
      → Congruent m (T + X) V
      → Congruent m (Y + S * cube H) (D * T)
      → Congruent m (S * S) (cube U + A * U + B)
      → Congruent m ((S + D) * (S + D)) (cube (U + H) + A * (U + H) + B)
      → Congruent m (Y * Y) (cube X + A * (H * cube H) * X + B * (cube H * cube H))
chord_identity m U S H D A B X T Y e1 e2 e3 e4 e5 =
    let V = U * (H * H) in
    let W = X + cube H + 2 * V in
    Congruent-combine m (Y * Y) (cube X + A * (H * cube H) * X + B * (cube H * cube H))
      (times m (Y + D * T) (Y + S * cube H) (D * T) e3
        ⊞ times m (S * cube H) (D * T) (Y + S * cube H) (sym e3)
        ⊞ times m (T * T) (D * D) W (sym e1)
        ⊞ times m (W * (T + V)) (T + X) V e2
        ⊞ times m (W * X) V (T + X) (sym e2)
        ⊞ times m (2 * D * S * cube H) V (T + X) (sym e2)
        ⊞ times m (cube H * X) W (D * D) e1
        ⊞ times m (cube H * X) ((S + D) * (S + D)) (cube (U + H) + A * (U + H) + B) e5
        ⊞ times m (cube H * X) (cube U + A * U + B) (S * S) (sym e4)
        ⊞ times m (V * cube H) (D * D) W (sym e1)
        ⊞ times m (V * cube H) (cube (U + H) + A * (U + H) + B) ((S + D) * (S + D)) (sym e5)
        ⊞ times m (V * cube H) (S * S) (cube U + A * U + B) e4
        ⊞ times m (cube H * cube H) (S * S) (cube U + A * U + B) e4)
      (omega arith)
