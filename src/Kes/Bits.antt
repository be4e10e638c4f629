-- ===== src/Kes/Bits.antt =====
-- The bits of a slot: `count_ones(n ^ (n + 1))` and `slot & (1 << bit)` of spectrum-kes/src.
use native.Mathlib.Nat.{
  add-mul-mod_self_right, add-mul-div_right, mod-eq_of_lt, div-eq_of_lt, div-add-mod', mod-lt,
}
use native.Mathlib.Nat.{pow-suc, one-le-pow, div-div-eq-div-mul}
use Prim.Native.Nat.{
  min, differ, digits, bitwise, bit_and, bit_xor, bit_and-bitwise, bit_xor-bitwise,
}
use spectrum.Kes.Update.{ones_within}
use spectrum.Prelude.{
  Bool-cases, ap, arith, false, inl, inr, refl, suc, true, zero, ℕ, ◌%◌, ◌*◌, ◌+◌, ◌-◌, ◌/◌, ◌<◌,
  ◌==◌, ◌^◌, ◌∙◌, ◌≡◌, ◌≤◌,
}

module _ (rest : ℕ → ℕ) (op : ℕ → ℕ → ℕ) where
  -- More fuel than digits changes nothing.
  enough_digits :
      (x y : ℕ) (fuel more : ℕ)
      → x ≤ fuel
      → fuel ≤ more
      → digits rest op more x y ≡ digits rest op fuel x y
  enough_digits zero y zero zero small less = refl
  enough_digits zero y zero (suc more) small less = refl
  enough_digits zero y (suc fuel) zero small less = refl
  enough_digits zero y (suc fuel) (suc more) small less = refl
  enough_digits (suc x) y zero more small less = absurd (omega arith)
  enough_digits (suc x) y (suc fuel) zero small less = absurd (omega arith)
  enough_digits (suc x) y (suc fuel) (suc more) small less =
      rw (enough_digits (suc x / 2) (y / 2) fuel more (omega arith) (omega arith))

bitwise_halves :
    (rest : ℕ → ℕ) (op : ℕ → ℕ → ℕ) (x y : ℕ)
    → bitwise rest op (suc x) y ≡ bitwise rest op (suc x / 2) (y / 2) * 2 + op (suc x % 2) (y % 2)
bitwise_halves rest op x y =
    omega
      (arith, enough_digits rest op (suc x / 2) (y / 2) (suc x / 2) x (omega arith) (omega arith))

xor_halves : (x y : ℕ) → bit_xor x y ≡ bit_xor (x / 2) (y / 2) * 2 + differ (x % 2) (y % 2)
xor_halves zero y = simp bit_xor-bitwise (omega arith)
xor_halves (suc x) y = simp bit_xor-bitwise (bitwise_halves (λ b. b) differ x y)

and_halves : (x y : ℕ) → bit_and x y ≡ bit_and (x / 2) (y / 2) * 2 + min (x % 2) (y % 2)
and_halves zero y = simp bit_and-bitwise (omega arith)
and_halves (suc x) y = simp bit_and-bitwise (bitwise_halves (λ b. zero) min x y)

differ_self : (x : ℕ) → differ x x ≡ 0
differ_self zero = refl
differ_self (suc x) = differ_self x

-- By a bound on the number, which halves.
xor_self : (bound x : ℕ) → x ≤ bound → bit_xor x x ≡ 0
xor_self zero zero small = refl
xor_self zero (suc x) small = elim small [ ]
xor_self (suc bound) zero small = refl
xor_self (suc bound) (suc x) small = omega (
  arith,
  xor_halves (suc x) (suc x),
  differ_self (suc x % 2),
  xor_self bound (suc x / 2) (omega arith),
)

and_zero : (bound x : ℕ) → x ≤ bound → bit_and x 0 ≡ 0
and_zero zero zero small = refl
and_zero zero (suc x) small = elim small [ ]
and_zero (suc bound) zero small = refl
and_zero (suc bound) (suc x) small =
    omega (arith, and_halves (suc x) 0, and_zero bound (suc x / 2) (omega arith))

ones_zero : (rounds : ℕ) → ones_within rounds 0 ≡ 0
unfolding ones_within
ones_zero zero = refl
ones_zero (suc rounds) = omega (arith, ones_zero rounds)

-- One more than the number of ones at the low end of `n`, within so many rounds.
unfoldable pub trail : ℕ → ℕ → ℕ
trail zero n = 0
trail (suc rounds) n = 1 + elim (n % 2 == 0) [ true ↦ 0 | false ↦ trail rounds (n / 2) ]

-- The lowest digit of `n ^ (n + 1)` is 1, and the others are those for half of an odd `n`.
xor_suc :
    (n : ℕ)
    → bit_xor n (n + 1)
      ≡ (elim (n % 2 == 0) [ true ↦ 0 | false ↦ bit_xor (n / 2) (n / 2 + 1) ]) * 2 + 1
xor_suc n = elim (Bool-cases (n % 2 == 0)) [
  | inl even ↦
      let parity : n % 2 ≡ 0 = ground arith in
      let next_parity : (n + 1) % 2 ≡ 1 = omega arith in
      let half : (n + 1) / 2 ≡ n / 2 = omega arith in
      rw (xor_halves n (n + 1)) (
        rw even
          (rw half (rw parity (rw next_parity (rw (xor_self (n / 2) (n / 2) (omega arith)) refl)))))
  | inr odd ↦
      let parity : n % 2 ≡ 1 = ground arith in
      let next_parity : (n + 1) % 2 ≡ 0 = omega arith in
      let half : (n + 1) / 2 ≡ n / 2 + 1 = omega arith in
      rw (xor_halves n (n + 1)) (rw odd (rw half (rw parity (rw next_parity refl))))
]

pub ones_trail : (rounds n : ℕ) → ones_within rounds (bit_xor n (n + 1)) ≡ trail rounds n
unfolding ones_within trail
ones_trail zero n = refl
ones_trail (suc rounds) n = elim (Bool-cases (n % 2 == 0)) [
  | inl even ↦ rw (xor_suc n) (rw even (omega (arith, ones_zero rounds)))
  | inr odd ↦ rw (xor_suc n) (
      rw odd (
        let other = bit_xor (n / 2) (n / 2 + 1) in
        let low : (other * 2 + 1) % 2 ≡ 1 = omega arith in
        let high : (other * 2 + 1) / 2 ≡ other = omega arith in
        rw low (rw high (rw (ones_trail rounds (n / 2)) refl))))
]

-- The last slot of a tree of height `h` ends in `h` ones.
pub trail_last : (h rounds : ℕ) → h < rounds → trail rounds (2 ^ h - 1) ≡ h + 1
unfolding trail
trail_last zero (suc rounds) fits = refl
trail_last (suc h) (suc rounds) fits =
    let power : 1 ≤ 2 ^ h = one-le-pow h 2 (omega arith) in
    let odd : ((2 ^ suc h - 1) % 2 == 0) ≡ false = ground (arith, pow-suc 2 h) in
    let half : (2 ^ suc h - 1) / 2 ≡ 2 ^ h - 1 = omega (arith, pow-suc 2 h) in
    rw odd (rw half (omega (arith, trail_last h rounds (omega arith))))
trail_last h zero fits = elim fits [ ]

-- The top digit does not matter to other slots.
pub trail_high : (h rounds n : ℕ) → n + 1 < 2 ^ h → trail rounds (2 ^ h + n) ≡ trail rounds n
unfolding trail
trail_high h zero n small = refl
trail_high zero (suc rounds) n small = absurd (omega (arith, small))
trail_high (suc h) (suc rounds) n small =
    let parity : (2 ^ suc h + n) % 2 ≡ n % 2 = omega (arith, pow-suc 2 h) in
    let half : (2 ^ suc h + n) / 2 ≡ 2 ^ h + n / 2 = omega (arith, pow-suc 2 h) in
    rw parity (elim (Bool-cases (n % 2 == 0)) [
      | inl even ↦ rw even refl
      | inr odd ↦
          let one : n % 2 ≡ 1 = ground arith in
          rw odd (
            rw half
              (ap (λ (x : ℕ). 1 + x) (trail_high h rounds (n / 2) (omega (arith, pow-suc 2 h)))))
    ])

pub trail_pos : (rounds n : ℕ) → 0 < rounds → 1 ≤ trail rounds n
unfolding trail
trail_pos zero n h = elim h [ ]
trail_pos (suc rounds) n h = omega arith

digit_twice : (digit power : ℕ) → digit * power * 2 + 0 ≡ digit * (power * 2)
digit_twice digit power = grind arith

-- `slot & (1 << bit)` keeps one digit.
pub and_power : (bit slot : ℕ) → bit_and slot (2 ^ bit) ≡ slot / 2 ^ bit % 2 * 2 ^ bit
and_power zero slot =
    let low : min (slot % 2) 1 ≡ slot % 2 = ground arith in
    omega (arith, and_halves slot 1, and_zero (slot / 2) (slot / 2) (omega arith), low)
and_power (suc bit) slot =
    let half : 2 ^ suc bit / 2 ≡ 2 ^ bit = omega (arith, pow-suc 2 bit) in
    let even : 2 ^ suc bit % 2 ≡ 0 = omega (arith, pow-suc 2 bit) in
    let low : min (slot % 2) 0 ≡ 0 = ground arith in
    let quotient : slot / 2 / 2 ^ bit ≡ slot / 2 ^ suc bit =
      div-div-eq-div-mul slot 2 (2 ^ bit)
      ∙ ap (λ (x : ℕ). slot / x) (omega (arith, pow-suc 2 bit)) in
    rw (and_halves slot (2 ^ suc bit)) (
      rw half (
        rw even (
          rw low (
            rw (and_power bit (slot / 2)) (
              rw quotient (
                digit_twice (slot / 2 ^ suc bit % 2) (2 ^ bit)
                ∙ ap (λ (x : ℕ). slot / 2 ^ suc bit % 2 * x) (omega (arith, pow-suc 2 bit))))))))

pub and_power_test : (bit slot : ℕ) → (bit_and slot (2 ^ bit) == 0) ≡ (slot / 2 ^ bit % 2 == 0)
and_power_test bit slot = ground (arith, and_power bit slot, one-le-pow bit 2)

-- A number from its part below `p` and the digits above.
from_parts : (p s q m : ℕ) → s < p → m ≡ s + q * p → (m % p ≡ s) × (m / p ≡ q)
from_parts p s q m small parts = (
  rw parts (add-mul-mod_self_right s q p ∙ mod-eq_of_lt small),
  rw parts (add-mul-div_right s q {z = p} (omega arith) ∙ omega (arith, div-eq_of_lt small)),
)

pub digits_low : (p m : ℕ) → m % (p * 2) < p → (m % p ≡ m % (p * 2)) × (m / p % 2 ≡ 0)
digits_low p m low =
    let q = m / (p * 2) in
    let halves : q * (p * 2) ≡ q * 2 * p = grind arith in
    let parts : (m % p ≡ m % (p * 2)) × (m / p ≡ q * 2) =
      from_parts p (m % (p * 2)) (q * 2) m low (omega (arith, div-add-mod' m (p * 2), halves)) in
    (parts.0, omega (arith, parts.1))

pub digits_high : (p m : ℕ) → 0 < p → p ≤ m % (p * 2) → (m % p ≡ m % (p * 2) - p) × (m / p % 2 ≡ 1)
digits_high p m some_p high =
    let q = m / (p * 2) in
    let halves : q * (p * 2) + p ≡ (q * 2 + 1) * p = grind arith in
    let below : m % (p * 2) < p * 2 = mod-lt m (omega arith) in
    let parts : (m % p ≡ m % (p * 2) - p) × (m / p ≡ q * 2 + 1) =
      from_parts p (m % (p * 2) - p) (q * 2 + 1) m (omega arith)
        (omega (arith, div-add-mod' m (p * 2), halves)) in
    (parts.0, omega (arith, parts.1))
