-- ===== src/Base/Bits.antt =====
-- Event masks: laws of the operations on binary digits at variables.
use Prim.Native.Nat.{
  ℕ, zero, suc, ◌+◌, ◌-◌, ◌*◌, ◌/◌, ◌%◌, ◌^◌, ◌≤◌, ◌<◌, min, max, bit_and, bit_or, digits,
  bit_and-bitwise, bit_or-bitwise,
}
use mathlib.Core.Path.{◌≡◌, refl, ap, sym, ◌∙◌}
use native.Mathlib.Nat.{mul_assoc}
use native.Mathlib.Omega.{arith}

-- An operation that is given by its effect on one digit.
module _ (z : ℕ → ℕ) (f : ℕ → ℕ → ℕ) (z_step : (b : ℕ) → z b ≡ z (b / 2) * 2 + f 0 (b % 2)) where
  -- Any count that is large enough gives the same result.
  count_free : (n m a b : ℕ) → a ≤ n → a ≤ m → digits z f n a b ≡ digits z f m a b
  count_free zero zero a b h k = refl
  count_free zero (suc m) zero b h k = refl
  count_free zero (suc m) (suc a) b h k = absurd (omega (arith, h))
  count_free (suc n) zero zero b h k = refl
  count_free (suc n) zero (suc a) b h k = absurd (omega (arith, k))
  count_free (suc n) (suc m) zero b h k = refl
  count_free (suc n) (suc m) (suc a) b h k =
      ap (λ r. r * 2 + f (suc a % 2) (b % 2))
        (count_free n m (suc a / 2) (b / 2) (omega (arith, h)) (omega (arith, k)))

  low_digit :
      (a b : ℕ) → digits z f a a b ≡ digits z f (a / 2) (a / 2) (b / 2) * 2 + f (a % 2) (b % 2)
  low_digit zero b = z_step b
  low_digit (suc a) b =
      ap (λ r. r * 2 + f (suc a % 2) (b % 2))
        (count_free a (suc a / 2) (suc a / 2) (b / 2) (omega arith) (omega arith))

pub bit_and_step : (a b : ℕ) → bit_and a b ≡ bit_and (a / 2) (b / 2) * 2 + min (a % 2) (b % 2)
bit_and_step a b =
    (λ i. bit_and-bitwise a b i)
    ∙ low_digit (λ b. zero) min (λ b. omega arith) a b
    ∙ ap (λ r. r * 2 + min (a % 2) (b % 2)) (sym (λ i. bit_and-bitwise (a / 2) (b / 2) i))

pub bit_or_step : (a b : ℕ) → bit_or a b ≡ bit_or (a / 2) (b / 2) * 2 + max (a % 2) (b % 2)
bit_or_step a b =
    (λ i. bit_or-bitwise a b i)
    ∙ low_digit (λ b. b) max (λ b. omega arith) a b
    ∙ ap (λ r. r * 2 + max (a % 2) (b % 2)) (sym (λ i. bit_or-bitwise (a / 2) (b / 2) i))

nothing_and : (b : ℕ) → bit_and 0 b ≡ 0
nothing_and b = λ i. bit_and-bitwise 0 b i

-- By recursion on a bound of `a`.
and_nothing : (n a : ℕ) → a ≤ n → bit_and a 0 ≡ 0
and_nothing zero a h = ap (λ x. bit_and x 0) (let e : a ≡ 0 = omega (arith, h) in e)
and_nothing (suc n) zero h = refl
and_nothing (suc n) (suc a) h =
    omega (arith, bit_and_step (suc a) 0, and_nothing n (suc a / 2) (omega (arith, h)))

pub bit_and-zero : (a : ℕ) → bit_and a 0 ≡ 0
bit_and-zero a = and_nothing a a (omega arith)

-- The digits of a mask that are cleared are not set.
pub cleared : (w a e : ℕ) → e < 2 ^ w → bit_and (bit_and a (2 ^ w - 1 - e)) e ≡ 0
cleared zero a e h =
    ap (bit_and (bit_and a (2 ^ 0 - 1 - e))) (let r : e ≡ 0 = omega (arith, h) in r)
    ∙ bit_and-zero (bit_and a (2 ^ 0 - 1 - e))
cleared (suc w) a e h =
    let n = 2 ^ suc w - 1 - e in
    let double : 2 ^ suc w ≡ 2 * 2 ^ w = omega arith in
    let half : n / 2 ≡ 2 ^ w - 1 - e / 2 = omega (arith, h, double) in
    let ih = cleared w (a / 2) (e / 2) (omega (arith, h, double)) in
    let ih' : bit_and (bit_and (a / 2) (n / 2)) (e / 2) ≡ 0 = rw half ih in
    let low : n % 2 ≡ 1 - e % 2 = omega (arith, h, double) in
    let inner = bit_and_step a n in
    let rest : bit_and a n / 2 ≡ bit_and (a / 2) (n / 2) = omega (arith, inner) in
    let ih'' : bit_and (bit_and a n / 2) (e / 2) ≡ 0 = rw rest ih' in
    omega (arith, bit_and_step (bit_and a n) e, ih'', inner, low)

-- What is set over cleared digits is what the mask reads.
pub rearmed :
    (w a e x : ℕ) → e < 2 ^ w → bit_and (bit_or (bit_and a (2 ^ w - 1 - e)) x) e ≡ bit_and x e
rearmed zero a e x h =
    let r : e ≡ 0 = omega (arith, h) in
    let y = bit_or (bit_and a (2 ^ 0 - 1 - e)) x in
    ap (bit_and y) r ∙ bit_and-zero y ∙ sym (ap (bit_and x) r ∙ bit_and-zero x)
rearmed (suc w) a e x h =
    let n = 2 ^ suc w - 1 - e in
    let double : 2 ^ suc w ≡ 2 * 2 ^ w = omega arith in
    let half : n / 2 ≡ 2 ^ w - 1 - e / 2 = omega (arith, h, double) in
    let low : n % 2 ≡ 1 - e % 2 = omega (arith, h, double) in
    let ih = rearmed w (a / 2) (e / 2) (x / 2) (omega (arith, h, double)) in
    let ih' : bit_and (bit_or (bit_and (a / 2) (n / 2)) (x / 2)) (e / 2) ≡ bit_and (x / 2) (e / 2) =
      rw half ih in
    let inner = bit_and_step a n in
    let rest : bit_and a n / 2 ≡ bit_and (a / 2) (n / 2) = omega (arith, inner) in
    let outer = bit_or_step (bit_and a n) x in
    let rest' : bit_or (bit_and a n) x / 2 ≡ bit_or (bit_and (a / 2) (n / 2)) (x / 2) =
      let q : bit_or (bit_and a n) x / 2 ≡ bit_or (bit_and a n / 2) (x / 2) =
        omega (arith, outer) in
      q ∙ ap (λ y. bit_or y (x / 2)) rest in
    let ih'' : bit_and (bit_or (bit_and a n) x / 2) (e / 2) ≡ bit_and (x / 2) (e / 2) =
      rw rest' ih' in
    omega
      (arith, bit_and_step (bit_or (bit_and a n) x) e, bit_and_step x e, ih'', inner, outer, low)

pub bit_and-one : (x : ℕ) → bit_and x 1 ≡ x % 2
bit_and-one x = omega (arith, bit_and_step x 1, bit_and-zero (x / 2))

-- A digit that was set is set.
pub input_set : (x : ℕ) → bit_and (bit_or x 1) 1 ≡ 1
input_set x = omega (arith, bit_and-one (bit_or x 1), bit_or_step x 1)

-- A mask above all the digits of a number reads nothing.
pub bit_and-above : (w x y : ℕ) → x < 2 ^ w → bit_and x (2 ^ w * y) ≡ 0
bit_and-above zero x y h =
    ap (λ n. bit_and n (2 ^ 0 * y)) (let r : x ≡ 0 = omega (arith, h) in r)
    ∙ nothing_and (2 ^ 0 * y)
bit_and-above (suc w) x y h =
    let pow : 2 ^ suc w ≡ 2 * 2 ^ w = omega arith in
    let double : 2 ^ suc w * y ≡ 2 * (2 ^ w * y) = ap (λ n. n * y) pow ∙ mul_assoc 2 (2 ^ w) y in
    let ih = bit_and-above w (x / 2) y (omega (arith, h, pow)) in
    let half : 2 ^ suc w * y / 2 ≡ 2 ^ w * y = omega (arith, double) in
    let even : 2 ^ suc w * y % 2 ≡ 0 = omega (arith, double) in
    let ih' : bit_and (x / 2) (2 ^ suc w * y / 2) ≡ 0 = rw half ih in
    omega (arith, bit_and_step x (2 ^ suc w * y), ih', even)

and_bound : (n a b : ℕ) → a ≤ n → bit_and a b ≤ b
and_bound zero a b h = let r : a ≡ 0 = omega (arith, h) in rw (r, nothing_and b) (omega arith)
and_bound (suc n) zero b h = rw (nothing_and b) (omega arith)
and_bound (suc n) (suc a) b h =
    omega (arith, bit_and_step (suc a) b, and_bound n (suc a / 2) (b / 2) (omega (arith, h)))

pub bit_and_le : (a b : ℕ) → bit_and a b ≤ b
bit_and_le a b = and_bound a a b (omega arith)
