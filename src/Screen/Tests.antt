-- ===== src/Screen/Tests.antt =====
-- The theorems on the screen at concrete screens.
use native.Mathlib.Omega.{arith}
use mathlib.Core.Path.{◌≡◌}
use nbos.Base.Bytes.{Bytes}
use nbos.Screen.{num2ascii}
use nbos.Screen.Hex.{hex_number, num2ascii-hex_number}

abbrev stars : Bytes
stars k = 42

num2ascii-hex_number_example :
    (hex_number (num2ascii 0xdeadbeef stars) 8 ≡ 0xdeadbeef) × (num2ascii 0xdeadbeef stars 8 ≡ 0)
num2ascii-hex_number_example = num2ascii-hex_number 0xdeadbeef stars (omega arith)
