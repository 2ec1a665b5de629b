-- ===== src/Screen/Hex.antt =====
-- `num2ascii` writes the number in base 16.
use nbos.Base.{
  ℕ, zero, suc, ◌+◌, ◌-◌, ◌*◌, ◌/◌, ◌%◌, ◌^◌, ◌<◌, ◌≡◌, refl, arith, ltb, if◌then◌else◌,
}
use nbos.Base.Bytes.{Bytes}
use nbos.Screen.{num2ascii}

-- The value of a digit 0 to 9 or A to F.
pub hex_value : ℕ → ℕ
hex_value c = if ltb c 58 then c - 48 else c - 55

-- The number that the first `n` characters spell.
abbrev pub hex_number : Bytes → ℕ → ℕ
hex_number text zero = 0
hex_number text (suc n) = hex_number text n * 16 + hex_value (text n)

digit :
    (number k : ℕ)
    → hex_value
        (number / 2 ^ (k * 4) % 16 + (if ltb (number / 2 ^ (k * 4) % 16) 10 then 48 else 55))
      ≡ number / 2 ^ (k * 4) % 16
unfolding hex_value
digit number k = ground arith

-- The eight characters that `num2ascii` writes for a 32-bit number spell it in base 16, and the
-- text ends behind them.
pub num2ascii-hex_number :
    (number : ℕ) (asciipos : Bytes)
    → number < 2 ^ 32
    → (hex_number (num2ascii number asciipos) 8 ≡ number) × (num2ascii number asciipos 8 ≡ 0)
unfolding num2ascii
num2ascii-hex_number number asciipos h = (
  omega (
    arith,
    digit number 0,
    digit number 1,
    digit number 2,
    digit number 3,
    digit number 4,
    digit number 5,
    digit number 6,
    digit number 7,
  ),
  refl,
)
