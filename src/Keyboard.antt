-- ===== src/Keyboard.antt =====
-- keyboard.c: scan codes, the buffer of typed characters, and `readStdin`.
mod Tests
pub mod Typing
pub mod Shift
use nbos.Base.{
  ℕ, zero, suc, ◌+◌, ◌-◌, Bool, true, false, not, ◌&&◌, ◌||◌, Option, none, some, List, [], ◌∷◌,
  ◌==◌, ltb, leb, get_elem?, if◌then◌else◌,
}
use nbos.Base.Bytes.{Bytes}
use nbos.Base.Int.{ℤ, pos, negsuc, ◌+ℤ◌, ◌-ℤ◌}
use nbos.Memory.Copy.{put, memmov, move_within}
use nbos.Screen.{Screen, put_char}

-- `keyBuffer`, `offset` and `status_shift`.
pub record Keyboard : Type 0 where
  pub key_buffer : Bytes
  pub offset : ℤ
  pub status_shift : ℕ

abbrev pub buffer_size : ℕ
buffer_size = 512

abbrev pub l_shift_make : ℕ
l_shift_make = 0x2a

abbrev pub r_shift_make : ℕ
r_shift_make = 0x36

abbrev pub keymap : List ℕ
keymap =
    0 ∷ 27 ∷ 49 ∷ 50 ∷ 51 ∷ 52 ∷ 53 ∷ 54 ∷ 55 ∷ 56 ∷ 57 ∷ 48 ∷ 45 ∷ 61 ∷ 8 ∷ 9 ∷ 113 ∷ 119 ∷ 101
    ∷ 114 ∷ 116 ∷ 121 ∷ 117 ∷ 105 ∷ 111 ∷ 112 ∷ 91 ∷ 93 ∷ 10 ∷ 0 ∷ 97 ∷ 115 ∷ 100 ∷ 102 ∷ 103 ∷ 104
    ∷ 106 ∷ 107 ∷ 108 ∷ 59 ∷ 39 ∷ 96 ∷ 0 ∷ 92 ∷ 122 ∷ 120 ∷ 99 ∷ 118 ∷ 98 ∷ 110 ∷ 109 ∷ 44 ∷ 46 ∷ 47
    ∷ 0 ∷ 42 ∷ 0 ∷ 32 ∷ 0 ∷ []

abbrev pub keymaps : List ℕ
keymaps =
    0 ∷ 27 ∷ 33 ∷ 64 ∷ 35 ∷ 36 ∷ 37 ∷ 94 ∷ 38 ∷ 42 ∷ 40 ∷ 41 ∷ 95 ∷ 43 ∷ 8 ∷ 9 ∷ 81 ∷ 87 ∷ 69 ∷ 82
    ∷ 84 ∷ 89 ∷ 85 ∷ 73 ∷ 79 ∷ 80 ∷ 123 ∷ 125 ∷ 10 ∷ 0 ∷ 65 ∷ 83 ∷ 68 ∷ 70 ∷ 71 ∷ 72 ∷ 74 ∷ 75 ∷ 76
    ∷ 58 ∷ 34 ∷ 126 ∷ 0 ∷ 124 ∷ 90 ∷ 88 ∷ 67 ∷ 86 ∷ 66 ∷ 78 ∷ 77 ∷ 60 ∷ 62 ∷ 63 ∷ 0 ∷ 42 ∷ 0 ∷ 32
    ∷ 0 ∷ []

-- A byte as a `char`, which is signed on this machine.
unfoldable pub signed_char : ℕ → ℤ
signed_char b = if ltb b 128 then pos b else negsuc (255 - b)

unfoldable pub int_eq : ℤ → ℤ → Bool
int_eq (pos a) (pos b) = a == b
int_eq (negsuc a) (negsuc b) = a == b
int_eq a b = false

-- The bit 0x80 of the byte.
unfoldable pub is_break_code : ℕ → Bool
is_break_code scancode = leb 128 scancode

-- What a released key does: the statement in the `if` is the comparison `status_shift == 0`, which
-- has no effect.
unfoldable pub break_code : ℕ → Keyboard → Keyboard
break_code scancode k =
    if int_eq (signed_char scancode) (pos (l_shift_make + 0x80))
      || int_eq (signed_char scancode) (pos (r_shift_make + 0x80))
    then (let no_effect = k.status_shift == 0 in k)
    else k

abbrev pub with_keyboard : Option ℕ → Keyboard → Option (ℕ × Keyboard)
with_keyboard none k = none
with_keyboard (some a) k = some (a, k)

-- `scancode` is the byte that the keyboard controller gives; `none` is a read behind a table.
unfoldable pub get_ascii : ℕ → Keyboard → Option (ℕ × Keyboard)
unfolding is_break_code break_code
get_ascii scancode k =
    if is_break_code scancode
    then some (0, break_code scancode k)
    else if scancode == l_shift_make || scancode == r_shift_make
    then some (0, record k { status_shift = 1 })
    else if k.status_shift == 1
    then with_keyboard (get_elem? keymaps scancode) k
    else with_keyboard (get_elem? keymap scancode) k

-- `keyBuffer[offset++] = code`, with `none` for a write in front of the buffer.
unfoldable pub store : ℕ → Keyboard → ℤ → Option Keyboard
store code k (pos n) =
    some (record k { key_buffer = put k.key_buffer n code; offset = pos (n + 1) })
store code k (negsuc n) = none

unfoldable pub at_end : ℤ → Bool
at_end (pos n) = leb buffer_size n
at_end (negsuc n) = false

abbrev with_screen : Option Keyboard → Screen → Option (Keyboard × Screen)
with_screen none s = none
with_screen (some k) s = some (k, s)

unfoldable pub handle_code : ℕ → Keyboard → Screen → Option (Keyboard × Screen)
unfolding store at_end
handle_code code k s =
    if code == 0
    then some (k, s)
    else if (code == 8) && not (int_eq k.offset (pos 0))
    then some (record k { offset = k.offset -ℤ pos 1 }, put_char code s)
    else if at_end k.offset
    then some (k, put_char code s)
    else with_screen (store code k k.offset) (put_char code s)

abbrev handle_ascii : Option (ℕ × Keyboard) → Screen → Option (Keyboard × Screen)
handle_ascii none s = none
handle_ascii (some (code, k)) s = handle_code code k s

unfoldable pub do_keyboard_handler : ℕ → Keyboard → Screen → Option (Keyboard × Screen)
do_keyboard_handler scancode k s = handle_ascii (get_ascii scancode k) s

-- The first line feed from `i` on, among the `n` bytes left.
unfoldable pub line_end : Bytes → ℕ → ℕ → Option ℕ
line_end buffer zero i = none
line_end buffer (suc n) i =
    let rest = line_end buffer n (i + 1) in if buffer i == 10 then some i else rest

abbrev taken : Option ℕ → Keyboard → Bytes → Option (ℕ × Bytes × Keyboard)
taken none k buf = none
taken (some index) k buf = some (
  index + 1,
  memmov k.key_buffer 0 buf 0 (index + 1),
  record k {
    key_buffer = move_within k.key_buffer (index + 1) 0 (buffer_size - index - 1);
    offset = k.offset -ℤ (pos index -ℤ pos 1);
  },
)

-- The number of bytes returned, the caller's buffer and the keyboard; `none` is the result -1.
unfoldable pub read_stdin : Keyboard → Bytes → Option (ℕ × Bytes × Keyboard)
unfolding line_end
read_stdin k buf = taken (line_end k.key_buffer buffer_size 0) k buf
