-- ===== src/Ring/Index.antt =====
-- Free-running cursors and the slots that they name.
use Prim.Native.Nat.{◌∣◌}
use native.Mathlib.Nat.{dvd_refl, dvd-mul_left_of_dvd, le_of_dvd, mod-add-div', mod-mod_of_dvd}
use ferrox.Prelude.{
  Bool-cases, inl, inr, leb, true, ◌*◌, ◌==◌, ap, arith, suc, zero, ◌%◌, ◌+◌, ◌/◌, ◌<◌, ◌≡◌, ◌≤◌, ℕ,
}
use ferrox.Ring.{words, power, is_power_below}

mul-add-le : (q r c : ℕ) → q < r → q * c + c ≤ r * c
mul-add-le q r c h = grind arith

same_quotient :
    (q r c x y : ℕ) → x + q * c < y + r * c + c → y + r * c < x + q * c + c → x ≡ y → q ≡ r
same_quotient q r c x y h k e = grind (arith, mul-add-le q r c, mul-add-le r q c)

-- Cursors that differ by less than the capacity name different slots.
pub index_injective : (t c d e : ℕ) → d < c → e < c → (t + d) % c ≡ (t + e) % c → d ≡ e
index_injective t c d e hd he same =
    let a = mod-add-div' (t + d) c in
    let b = mod-add-div' (t + e) c in
    let q =
      same_quotient ((t + d) / c) ((t + e) / c) c ((t + d) % c) ((t + e) % c) (omega arith)
        (omega arith) same in
    omega (arith, ap (λ (k : ℕ). k * c) q)

-- What the code relies on: a power of two below 2 ^ 64.
pub record IsCapacity (c : ℕ) : Type 0 where
  pub positive : 0 < c
  pub small : c ≤ 9_223_372_036_854_775_808
  pub divides : c ∣ words

power-dvd : (j n : ℕ) → j ≤ n → power j ∣ power n
unfolding power
power-dvd j zero h = let e : j ≡ 0 = omega arith in rw e (dvd_refl (power 0))
power-dvd j (suc n) h = elim (Bool-cases (leb j n)) [
  | inl below ↦ dvd-mul_left_of_dvd (power j) (power-dvd j n (ground arith)) 2
  | inr top ↦ let e : j ≡ suc n = ground arith in rw e (dvd_refl (power (suc n)))
]

power_pos : (n : ℕ) → 0 < power n
unfolding power
power_pos zero = omega arith
power_pos (suc n) = omega (arith, power_pos n)

power-IsCapacity : (j : ℕ) → j < 64 → IsCapacity (power j)
unfolding power
power-IsCapacity j h = record {
  positive = power_pos j;
  small = le_of_dvd (power_pos 63) (power-dvd j 63 (omega arith));
  divides = power-dvd j 64 (omega arith);
}

pub is_power_below-IsCapacity : (k c : ℕ) → k ≤ 64 → is_power_below k c ≡ true → IsCapacity c
unfolding is_power_below
is_power_below-IsCapacity zero c h e = cc
is_power_below-IsCapacity (suc k) c h e = elim (Bool-cases (c == power k)) [
  | inl here ↦ let same : c ≡ power k = ground arith in rw same (power-IsCapacity k (omega arith))
  | inr other ↦ is_power_below-IsCapacity k c (omega arith) (ground arith)
]

-- The wrap of a cursor does not move its slot.
pub mod-words : {c : ℕ} (n : ℕ) → IsCapacity c → n % words % c ≡ n % c
mod-words {c} n is = mod-mod_of_dvd c n is.divides
