-- ===== src/Screen.antt =====
-- print.c: the cursor of the video controller, the text memory, and printing.
mod Tests
pub mod Cells
pub mod Scroll
pub mod Hex
use nbos.Base.{
  ℕ, zero, suc, ◌+◌, ◌-◌, ◌*◌, ◌/◌, ◌%◌, ◌^◌, Bool, true, false, ◌||◌, Option, none, some, List, [],
  ◌∷◌, ◌==◌, ltb, if◌then◌else◌,
}
use nbos.Base.Bytes.{Bytes}
use nbos.Memory.Copy.{move_within, put}

-- The two cursor registers, the memory from `VEDIO_POSITION` on, and `video_lock`.
pub record Screen : Type 0 where
  pub high_cursor : ℕ
  pub low_cursor : ℕ
  pub video : Bytes
  pub video_lock : ℕ

abbrev pub con_attr : ℕ
con_attr = 0x70

abbrev pub last_cursor : ℕ
last_cursor = 2000

unfoldable pub get_cursor : Screen → ℕ
get_cursor s = s.high_cursor * 256 + s.low_cursor

unfoldable pub set_cursor : ℕ → Screen → Screen
set_cursor cursor s = record s { high_cursor = cursor / 256 % 256; low_cursor = cursor % 256 }

-- `unsigned int` subtraction.
abbrev pub minus : ℕ → ℕ → ℕ
minus a b = (a + 2 ^ 32 - b) % 2 ^ 32

unfoldable pub scroll_screen : Screen → Screen
unfolding get_cursor set_cursor
scroll_screen s =
    let moved = record s { video = move_within s.video (80 * 2) 0 (24 * 80 * 2) } in
    set_cursor (minus (get_cursor moved) 80) moved

unfoldable pub update_cursor : ℕ → Screen → Screen
update_cursor current_cursor s =
    if current_cursor == last_cursor
    then set_cursor (last_cursor - 80) (scroll_screen s)
    else set_cursor (current_cursor + 1) s

unfoldable pub set_char : ℕ → ℕ → Screen → Screen
set_char current_cursor a s = record s {
  video = put (put s.video (current_cursor * 2) a) (current_cursor * 2 + 1) con_attr;
}

unfoldable pub put_char0 : ℕ → ℕ → Screen → Screen
unfolding set_char update_cursor
put_char0 a current_cursor s = update_cursor current_cursor (set_char current_cursor a s)

unfoldable pub backspace : ℕ → Screen → Screen
unfolding set_char set_cursor
backspace current_cursor s =
    if current_cursor == 0
    then s
    else set_char (current_cursor - 1) 0 (set_cursor (current_cursor - 1) s)

-- The `if` has no `else`: the last line sets the cursor in both cases.
unfoldable pub linefeed : ℕ → Screen → Screen
linefeed current_cursor s =
    let scrolled =
      if current_cursor / 80 == 24 then set_cursor (last_cursor - 80) (scroll_screen s) else s in
    set_cursor ((current_cursor / 80 + 1) * 80) scrolled

unfoldable pub put_char : ℕ → Screen → Screen
put_char a s =
    let current_cursor = get_cursor s in
    if a == 0x08
    then backspace current_cursor s
    else if a == 0x0a || a == 0x0d
    then linefeed current_cursor s
    else put_char0 a current_cursor s

-- The characters of a text up to its end.
unfoldable pub put_text : List ℕ → Screen → Screen
put_text [] s = s
put_text (a ∷ text) s = put_text text (put_char a s)

-- `none` where the lock is taken: `acquire` spins for ever, since nothing else runs here.
unfoldable pub print : List ℕ → Screen → Option Screen
unfolding put_text
print text s =
    if s.video_lock == 0
    then some (record (put_text text (record s { video_lock = 1 })) { video_lock = 0 })
    else none

-- `num2ascii`: the loop with `n` rounds left.
unfoldable pub ascii_digits : ℕ → ℕ → ℕ → Bytes → Bytes
ascii_digits number zero i asciipos = asciipos
ascii_digits number (suc n) i asciipos =
    let a = number / 2 ^ (i * 4) % 16 in
    ascii_digits number n (i + 1) (put asciipos (7 - i) (a + (if ltb a 10 then 48 else 55)))

unfoldable pub num2ascii : ℕ → Bytes → Bytes
unfolding ascii_digits put
num2ascii number asciipos = put (ascii_digits number 8 0 asciipos) 8 0

-- The buffer is not set before `num2ascii`; its 8 digits are printed, up to the 0 behind them.
unfoldable pub printn : Bytes → ℕ → Screen → Option Screen
printn buffer number s =
    let d = num2ascii number buffer in print (d 0 ∷ d 1 ∷ d 2 ∷ d 3 ∷ d 4 ∷ d 5 ∷ d 6 ∷ d 7 ∷ []) s

-- The loop of `clear_screen`, with `n` cells left.
unfoldable pub clear_cells : ℕ → ℕ → Screen → Screen
clear_cells zero i s = s
clear_cells (suc n) i s = clear_cells n (i + 1) (set_char i 0 s)

unfoldable pub clear_screen : Screen → Option Screen
clear_screen s =
    if s.video_lock == 0
    then some (record (set_cursor 0 (clear_cells 2000 0 (record s { video_lock = 1 }))) {
      video_lock = 0;
    })
    else none
