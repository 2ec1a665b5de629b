-- ===== src/Screen/Cells.antt =====
-- Ordinary characters on the screen, and the screen cleared.
use nbos.Base.{
  ℕ, zero, suc, ◌+◌, ◌-◌, ◌*◌, ◌%◌, ◌<◌, ◌≡◌, ◌≢◌, refl, arith, ◌&&◌, ◌==◌, ltb, leb, some,
  if◌then◌else◌, ◌∙◌,
}
use nbos.Memory.Copy.{put}
use nbos.Screen.{
  Screen, get_cursor, set_cursor, put_char, put_char0, set_char, update_cursor, con_attr,
  clear_cells, clear_screen, backspace,
}

-- The cursor is read as it was set, on 16 bits.
pub get_cursor-set_cursor : (c : ℕ) (s : Screen) → get_cursor (set_cursor c s) ≡ c % 65536
unfolding get_cursor set_cursor
get_cursor-set_cursor c s = omega arith

-- A character that is none of the three controls.
abbrev pub IsPlain : ℕ → Type 0
IsPlain a = (a ≢ 8) × (a ≢ 10) × (a ≢ 13)

-- On a screen with the cursor in one of its 2000 cells, a plain character goes into the cursor's
-- cell with the fixed attribute, every other byte `k` of the memory stays, and the cursor moves on
-- by one, which leads from the last cell out of the screen.
pub put_char-plain :
    (a k : ℕ) (s : Screen)
    → IsPlain a
    → get_cursor s < 2000
    → (get_cursor (put_char a s) ≡ get_cursor s + 1)
      × ((put_char a s).video k ≡ (
          if k == get_cursor s * 2
          then a
          else if k == get_cursor s * 2 + 1
          then con_attr
          else s.video k))
unfolding put_char put_char0 set_char update_cursor get_cursor set_cursor put
put_char-plain a k s plain h = ground arith

-- A backspace steps back by one cell and blanks it, and at the first cell does nothing.
pub put_char-backspace :
    (k : ℕ) (s : Screen)
    → get_cursor s < 2000
    → (get_cursor (put_char 8 s) ≡ get_cursor s - 1)
      × ((put_char 8 s).video k ≡ (
          if leb 1 (get_cursor s) && (k == (get_cursor s - 1) * 2)
          then 0
          else if leb 1 (get_cursor s) && (k == (get_cursor s - 1) * 2 + 1)
          then con_attr
          else s.video k))
unfolding put_char backspace set_char get_cursor set_cursor put
put_char-backspace k s h = ground arith

clear_cells_at :
    (n i k : ℕ) (s : Screen)
    → (clear_cells n i s).video k ≡ (
        if leb (i * 2) k && ltb k ((i + n) * 2)
        then (if k % 2 == 0 then 0 else con_attr)
        else s.video k)
unfolding clear_cells set_char put
clear_cells_at zero i k s = ground arith
clear_cells_at (suc n) i k s = clear_cells_at n (i + 1) k (set_char i 0 s) ∙ ground arith

clear_cells-lock : (n i : ℕ) (s : Screen) → (clear_cells n i s).video_lock ≡ s.video_lock
unfolding clear_cells set_char
clear_cells-lock zero i s = refl
clear_cells-lock (suc n) i s = clear_cells-lock n (i + 1) (set_char i 0 s)

-- With the lock free, `clear_screen` blanks the 2000 cells with the fixed attribute, leaves the
-- memory behind them, puts the cursor into the first cell and frees the lock.
pub clear_screen_lem :
    (s : Screen) (k : ℕ)
    → s.video_lock ≡ 0
    → (s' : Screen) × (clear_screen s ≡ some s')
      × (get_cursor s' ≡ 0)
      × (s'.video_lock ≡ 0)
      × (s'.video k ≡ (if ltb k 4000 then (if k % 2 == 0 then 0 else con_attr) else s.video k))
unfolding clear_screen get_cursor set_cursor
clear_screen_lem s k free =
    let begun : Screen = record s { video_lock = 1 } in
    (
      record (set_cursor 0 (clear_cells 2000 0 begun)) { video_lock = 0 },
      rw free,
      refl,
      refl,
      clear_cells_at 2000 0 k begun ∙ ground arith,
    )
