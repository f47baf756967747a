-- ===== src/Base/Congruence.antt =====
-- Numbers that leave the same rest.
use Prim.Native.Nat.{ℕ, zero, suc, ◌+◌, ◌*◌, ◌/◌, ◌%◌, ◌<◌}
use mathlib.Core.Path.{◌≡◌, refl, sym, ap, ap₂, ◌∙◌}
use native.Mathlib.Nat.{
  add-mul-mod_self_right, mod-add-div', mod-add-mod, add-mod-mod, mod-eq_of_lt,
}
use native.Mathlib.Omega.{arith}

abbrev pub Congruent : ℕ → ℕ → ℕ → Type 0
Congruent m a b = a % m ≡ b % m

-- Multiples of the modulus, written out on both sides.
pub Congruent-of_eq : (m a b i j : ℕ) → a + i * m ≡ b + j * m → Congruent m a b
Congruent-of_eq m a b i j e =
    sym (add-mul-mod_self_right a i m) ∙ ap (λ (s : ℕ). s % m) e ∙ add-mul-mod_self_right b j m

pub mod-Congruent : (m a : ℕ) → Congruent m a (a % m)
mod-Congruent m a = Congruent-of_eq m a (a % m) 0 (a / m) (omega (arith, mod-add-div' a m))

pub Congruent-add :
    (m a b c d : ℕ) → Congruent m a b → Congruent m c d → Congruent m (a + c) (b + d)
Congruent-add m a b c d e f =
    let left : (a + c) % m ≡ (a % m + c % m) % m =
      sym (mod-add-mod a m c) ∙ sym (add-mod-mod (a % m) c m) in
    let right : (b + d) % m ≡ (b % m + d % m) % m =
      sym (mod-add-mod b m d) ∙ sym (add-mod-mod (b % m) d m) in
    left ∙ ap₂ (λ (x y : ℕ). (x + y) % m) e f ∙ sym right

mul-mod : (m a c : ℕ) → a * c % m ≡ a % m * c % m
mul-mod m a c =
    let whole : a ≡ a % m + a / m * m = sym (mod-add-div' a m) in
    Congruent-of_eq m (a * c) (a % m * c) 0 (a / m * c) (omega (arith, ap (λ (x : ℕ). x * c) whole))

pub Congruent-mul_right : (m a b c : ℕ) → Congruent m a b → Congruent m (a * c) (b * c)
Congruent-mul_right m a b c e = mul-mod m a c ∙ ap (λ (x : ℕ). x * c % m) e ∙ sym (mul-mod m b c)

pub Congruent-mul :
    (m a b c d : ℕ) → Congruent m a b → Congruent m c d → Congruent m (a * c) (b * d)
Congruent-mul m a b c d e f =
    let swap_left : b * c ≡ c * b = omega arith in
    let swap_right : d * b ≡ b * d = omega arith in
    Congruent-mul_right m a b c e
    ∙ ap (λ (x : ℕ). x % m) swap_left
    ∙ Congruent-mul_right m c d b f
    ∙ ap (λ (x : ℕ). x % m) swap_right

-- A factor with an inverse is cancelled.
pub Congruent-cancel :
    (m u j a b : ℕ) → Congruent m (u * j) 1 → Congruent m (u * a) (u * b) → Congruent m a b
Congruent-cancel m u j a b inverse e =
    let undo : (x : ℕ) → Congruent m (u * x * j) x = λ x.
      ap (λ (y : ℕ). y % m) (reorder x)
      ∙ Congruent-mul_right m (u * j) 1 x inverse
      ∙ ap (λ (y : ℕ). y % m) (single x) in
    sym (undo a) ∙ Congruent-mul_right m (u * a) (u * b) j e ∙ undo b
  where
    reorder : (x : ℕ) → u * x * j ≡ u * j * x
    reorder x = omega arith

    single : (x : ℕ) → 1 * x ≡ x
    single x = omega arith

-- Half of the modulus above one half undoes a doubling.
pub Congruent-halve : (m a b : ℕ) → m % 2 ≡ 1 → Congruent m (2 * a) (2 * b) → Congruent m a b
Congruent-halve m a b odd e =
    Congruent-cancel m 2 (m / 2 + 1) a b (Congruent-of_eq m (2 * (m / 2 + 1)) 1 0 1 (omega arith)) e

pub eq_of_Congruent : (m a b : ℕ) → a < m → b < m → Congruent m a b → a ≡ b
eq_of_Congruent m a b h k e = sym (mod-eq_of_lt h) ∙ e ∙ mod-eq_of_lt k

pub Congruent-add_cancel : (m a b c : ℕ) → Congruent m (a + c) (b + c) → Congruent m a b
Congruent-add_cancel zero a b c e = omega arith
Congruent-add_cancel (suc m) a b c e =
    Congruent-of_eq (suc m) a (a + c + m * c) c 0 (omega arith)
    ∙ Congruent-add (suc m) (a + c) (b + c) (m * c) (m * c) e refl
    ∙ Congruent-of_eq (suc m) (b + c + m * c) b 0 c (omega arith)

-- A sum of multiples of congruences, oriented as they are needed: `left` is congruent to `right`.
pub record Combination (m : ℕ) : Type 0 where
  pub left : ℕ
  pub right : ℕ
  pub congruent : Congruent m left right

-- One congruence times a factor.
abbrev pub times : (m c a b : ℕ) → Congruent m a b → Combination m
times m c a b e = record { left = c * a; right = c * b; congruent = Congruent-mul m c c a b refl e }

infixl 65 ◌⊞◌
abbrev pub ◌⊞◌ : {m : ℕ} → Combination m → Combination m → Combination m
◌⊞◌ {m} x y = record {
  left = x.left + y.left;
  right = x.right + y.right;
  congruent = Congruent-add m x.left x.right y.left y.right x.congruent y.congruent;
}

-- A congruence that is such a combination up to an identity of polynomials.
pub Congruent-combine : (m a b : ℕ) (c : Combination m) → a + c.right ≡ b + c.left → Congruent m a b
Congruent-combine m a b c e =
    Congruent-add_cancel m a b c.right
      (ap (λ (x : ℕ). x % m) e ∙ Congruent-add m b b c.left c.right refl c.congruent)
