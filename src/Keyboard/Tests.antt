-- ===== src/Keyboard/Tests.antt =====
-- The theorems on the keyboard at concrete buffers.
use native.Mathlib.Omega.{arith}
use mathlib.Core.Path.{◌≡◌, refl}
use nbos.Base.{
  ℕ, ◌+◌, ◌≤◌, ◌<◌, ◌≢◌, some, List, [], ◌∷◌, ◌++◌, ◌==◌, if◌then◌else◌, length, get_or,
}
use nbos.Base.Bytes.{Bytes}
use nbos.Base.Int.{pos}
use nbos.Screen.{Screen}
use nbos.Keyboard.{Keyboard, break_code, is_break_code, int_eq, signed_char, get_ascii, read_stdin}
use nbos.Keyboard.Typing.{handle_codes, read_stdin-handle_codes}
use nbos.Keyboard.Shift.{get_ascii-keeps_shift}

abbrev zeros : Bytes
zeros k = 0

abbrev screen : Screen
screen = record { high_cursor = 0; low_cursor = 0; video = zeros; video_lock = 0 }

abbrev word : List ℕ
word = 104 ∷ 105 ∷ []

abbrev line : Bytes
line k = if k == 2 then 10 else 65

abbrev filled : Keyboard
filled = record { key_buffer = line; offset = pos 5; status_shift = 1 }

typed : (a : ℕ) → 32 ≤ a → (a ≢ 0) × (a ≢ 8) × (a ≢ 10)
typed a lo = ((λ e. absurd (omega arith)), (λ e. absurd (omega arith)), (λ e. absurd (omega arith)))

released : get_ascii 0xaa filled ≡ some (0, filled)
unfolding get_ascii break_code is_break_code int_eq signed_char
released = refl

read_stdin-handle_codes_example :
    (k : Keyboard) × (s' : Screen) × ((handle_codes
          (word ++ (10 ∷ []))
          (record { key_buffer = zeros; offset = pos 0; status_shift = 0 })
          screen
        ≡ some (k, s'))
      × ((out : Bytes) × (k' : Keyboard) × ((read_stdin k zeros ≡ some (length word + 1, out, k'))
            × ((i : ℕ) → i < length word → out i ≡ get_or word i 0)
            × (out (length word) ≡ 10))))
read_stdin-handle_codes_example =
    read_stdin-handle_codes word zeros 0 screen zeros
      (typed 104 (omega arith), (typed 105 (omega arith), tt)) (omega arith)

get_ascii-keeps_shift_example : filled.status_shift ≡ 1
get_ascii-keeps_shift_example = get_ascii-keeps_shift 0xaa 0 filled filled refl released
