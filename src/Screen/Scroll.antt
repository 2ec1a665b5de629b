-- ===== src/Screen/Scroll.antt =====
-- The last row of the screen: scrolling, and line feeds there.
use nbos.Base.{
  ℕ, ◌+◌, ◌-◌, ◌*◌, ◌/◌, ◌%◌, ◌≤◌, ◌<◌, ◌≡◌, inl, refl, arith, ltb, List, [], ◌∷◌, length,
  if◌then◌else◌, ◌∙◌,
}
use nbos.Memory.Copy.{put, move_within_at}
use nbos.Screen.{
  Screen, get_cursor, set_cursor, put_char, put_char0, set_char, update_cursor, scroll_screen,
  linefeed, put_text,
}
use nbos.Screen.Cells.{IsPlain, get_cursor-set_cursor}

-- Scrolling moves each of the last 24 rows up by one and leaves the last row as it was; the cursor
-- moves up with its row.
pub scroll_screen_lem :
    (s : Screen) (k : ℕ)
    → 80 ≤ get_cursor s
    → get_cursor s < 65536
    → (get_cursor (scroll_screen s) ≡ get_cursor s - 80)
      × ((scroll_screen s).video k ≡ (if ltb k 3840 then s.video (k + 160) else s.video k))
unfolding scroll_screen
scroll_screen_lem s k lo hi =
    (omega arith, move_within_at 3840 s.video 160 0 k (inl (omega arith)) ∙ ground arith)

cursor-linefeed : (c : ℕ) (s : Screen) → get_cursor (linefeed c s) ≡ (c / 80 + 1) * 80 % 65536
unfolding linefeed
cursor-linefeed c s = get_cursor-set_cursor _ _

-- A line feed on the last row scrolls, but puts the cursor behind the screen, and a second one takes
-- it to 2080.
pub put_char-linefeed_twice :
    (s : Screen)
    → 1920 ≤ get_cursor s
    → get_cursor s < 2000
    → (get_cursor (put_char 10 s) ≡ 2000) × (get_cursor (put_char 10 (put_char 10 s)) ≡ 2080)
unfolding put_char
put_char-linefeed_twice s lo hi =
    let first = cursor-linefeed (get_cursor s) s in
    let second =
      cursor-linefeed (get_cursor (linefeed (get_cursor s) s)) (linefeed (get_cursor s) s) in
    (omega arith, omega arith)

abbrev pub AllPlain : List ℕ → Type 0
AllPlain [] = Unit
AllPlain (a ∷ text) = IsPlain a × AllPlain text

put_char-hidden :
    (a : ℕ) (s : Screen) (k : ℕ)
    → IsPlain a
    → 2000 < get_cursor s
    → get_cursor s + 1 < 65536
    → k < 4000
    → (get_cursor (put_char a s) ≡ get_cursor s + 1) × ((put_char a s).video k ≡ s.video k)
unfolding put_char put_char0 set_char update_cursor get_cursor set_cursor put
put_char-hidden a s k plain lo hi hk = ground arith

-- Behind cell 2000 the screen never scrolls: a text of plain characters moves the cursor on by its
-- length, and none of its bytes `k` of the visible screen changes.
pub put_text-out_of_sight :
    (text : List ℕ) (s : Screen) (k : ℕ)
    → AllPlain text
    → 2000 < get_cursor s
    → get_cursor s + length text < 65536
    → k < 4000
    → (get_cursor (put_text text s) ≡ get_cursor s + length text)
      × ((put_text text s).video k ≡ s.video k)
unfolding put_text
put_text-out_of_sight [] s k plain lo hi hk = (omega arith, refl)
put_text-out_of_sight (a ∷ text) s k (plain, rest) lo hi hk =
    let one = put_char-hidden a s k plain lo (omega arith) hk in
    let more = put_text-out_of_sight text (put_char a s) k rest (omega arith) (omega arith) hk in
    (omega arith, more.1 ∙ one.1)
