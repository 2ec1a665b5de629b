-- ===== src/Keyboard/Typing.antt =====
-- Lines typed and read back: `handleCode` and `readStdin`.
use native.Mathlib.Decide.{ℕ_discrete}
use nbos.Base.{
  lt→ltb, ℕ, zero, suc, ◌+◌, ◌-◌, ◌≤◌, ◌<◌, List, [], ◌∷◌, ◌++◌, length, get_or, Option, none, some,
  ◌≡◌, refl, ap, sym, ◌∙◌, arith, ltb, if◌then◌else◌, false, inl, ◌≢◌, ne→==,
}
use nbos.Base.Bytes.{Bytes}
use nbos.Base.Int.{pos, ◌-ℤ◌}
use nbos.Memory.Copy.{put, memmov, move_within, memmov_at, move_within_at}
use nbos.Screen.{Screen, put_char}
use nbos.Keyboard.{Keyboard, handle_code, store, at_end, line_end, read_stdin}

-- `handleCode` for each of the characters, in order.
abbrev pub handle_codes : List ℕ → Keyboard → Screen → Option (Keyboard × Screen)
handle_codes [] k s = some (k, s)
handle_codes (a ∷ text) k s = elim (handle_code a k s) [
  | none ↦ none
  | some (k', s') ↦ handle_codes text k' s'
]

-- Neither 0, nor a backspace, nor a line feed.
abbrev pub AllTyped : List ℕ → Type 0
AllTyped [] = Unit
AllTyped (a ∷ text) = ((a ≢ 0) × (a ≢ 8) × (a ≢ 10)) × AllTyped text

-- The buffer with the characters from `p` on, and the screen with their echo.
abbrev stored : List ℕ → ℕ → Bytes → Bytes
stored [] p m = m
stored (a ∷ text) p m = stored text (p + 1) (put m p a)

abbrev echo : List ℕ → Screen → Screen
echo [] s = s
echo (a ∷ text) s = echo text (put_char a s)

abbrev keyboard : Bytes → ℕ → ℕ → Keyboard
keyboard m n shift = record { key_buffer = m; offset = pos n; status_shift = shift }

room-at_end : (n : ℕ) → n < 512 → at_end (pos n) ≡ false
unfolding at_end
room-at_end n room = ground arith

handle_code-store :
    (a n : ℕ) (m : Bytes) (shift : ℕ) (s : Screen)
    → a ≢ 0
    → a ≢ 8
    → n < 512
    → handle_code a (keyboard m n shift) s ≡ some (keyboard (put m n a) (n + 1) shift, put_char a s)
unfolding handle_code store
handle_code-store a n m shift s nz nb room = rw (ne→== a 0 nz, ne→== a 8 nb, room-at_end n room)

handle_codes-typed :
    (text : List ℕ) (n : ℕ) (m : Bytes) (shift : ℕ) (s : Screen)
    → AllTyped text
    → n + length text < 512
    → handle_codes (text ++ (10 ∷ [])) (keyboard m n shift) s
      ≡ some (
        keyboard (stored (text ++ (10 ∷ [])) n m) (n + length text + 1) shift,
        echo (text ++ (10 ∷ [])) s,
      )
handle_codes-typed [] n m shift s typed room =
    let e : n + 1 ≡ n + 0 + 1 = omega arith in
    rw (handle_codes, handle_code-store 10 n m shift s (ground arith) (ground arith) (omega arith))
      (ap (λ x. some (keyboard (put m n 10) x shift, put_char 10 s)) e)
handle_codes-typed (a ∷ text) n m shift s ((nz, nb, nl), typed) room =
    let e : n + 1 + length text + 1 ≡ n + suc (length text) + 1 = omega arith in
    rw (
      handle_codes,
      handle_code-store a n m shift s nz nb (omega arith),
      handle_codes-typed text (n + 1) (put m n a) shift (put_char a s) typed (omega arith),
      e,
    )

stored-before : (text : List ℕ) (p : ℕ) (m : Bytes) (k : ℕ) → k < p → stored text p m k ≡ m k
unfolding put
stored-before [] p m k lt = refl
stored-before (a ∷ text) p m k lt =
    stored-before text (p + 1) (put m p a) k (omega arith) ∙ ground arith

stored_at :
    (text : List ℕ) (p : ℕ) (m : Bytes) (i : ℕ)
    → i < length text
    → stored text p m (p + i) ≡ get_or text i 0
unfolding put
stored_at [] p m i lt = ground arith
stored_at (a ∷ text) p m zero lt =
    stored-before text (p + 1) (put m p a) (p + 0) (omega arith) ∙ ground arith
stored_at (a ∷ text) p m (suc i) lt =
    let e : p + suc i ≡ p + 1 + i = omega arith in
    ap (stored text (p + 1) (put m p a)) e ∙ stored_at text (p + 1) (put m p a) i (omega arith)

stored-end :
    (text : List ℕ) (p a : ℕ) (m : Bytes) → stored (text ++ (a ∷ [])) p m (p + length text) ≡ a
unfolding put
stored-end [] p a m = ground arith
stored-end (b ∷ text) p a m =
    let e : p + suc (length text) ≡ p + 1 + length text = omega arith in
    ap (stored (text ++ (a ∷ [])) (p + 1) (put m p b)) e ∙ stored-end text (p + 1) a (put m p b)

stored-front :
    (text : List ℕ) (p a : ℕ) (m : Bytes) (i : ℕ)
    → i < length text
    → stored (text ++ (a ∷ [])) p m (p + i) ≡ get_or text i 0
unfolding put
stored-front [] p a m i lt = ground arith
stored-front (b ∷ text) p a m zero lt =
    stored-before (text ++ (a ∷ [])) (p + 1) (put m p b) (p + 0) (omega arith) ∙ ground arith
stored-front (b ∷ text) p a m (suc i) lt =
    let e : p + suc i ≡ p + 1 + i = omega arith in
    ap (stored (text ++ (a ∷ [])) (p + 1) (put m p b)) e
    ∙ stored-front text (p + 1) a (put m p b) i (omega arith)

stored0-end : (text : List ℕ) (a : ℕ) (m : Bytes) → stored (text ++ (a ∷ [])) 0 m (length text) ≡ a
stored0-end text a m =
    let e : length text ≡ 0 + length text = omega arith in
    ap (stored (text ++ (a ∷ [])) 0 m) e ∙ stored-end text 0 a m

stored0-front :
    (text : List ℕ) (a : ℕ) (m : Bytes) (i : ℕ)
    → i < length text
    → stored (text ++ (a ∷ [])) 0 m i ≡ get_or text i 0
stored0-front text a m i lt =
    let e : i ≡ 0 + i = omega arith in
    ap (stored (text ++ (a ∷ [])) 0 m) e ∙ stored-front text 0 a m i lt

get_or-typed : (text : List ℕ) (i : ℕ) → AllTyped text → i < length text → get_or text i 0 ≢ 10
get_or-typed [] i typed lt = ground arith
get_or-typed (a ∷ text) zero ((nz, nb, nl), typed) lt = nl
get_or-typed (a ∷ text) (suc i) ((nz, nb, nl), typed) lt = get_or-typed text i typed (omega arith)

-- The index found is the first line feed.
line_end-found :
    (m : Bytes) (n i index : ℕ)
    → i ≤ index
    → index < i + n
    → m index ≡ 10
    → ((j : ℕ) → i ≤ j → j < index → m j ≢ 10)
    → line_end m n i ≡ some index
unfolding line_end
line_end-found m zero i index lo hi at before = ground arith
line_end-found m (suc n) i index lo hi at before = elim (ℕ_discrete i index) [
  | yes e ↦ rw (e, at)
  | no ne ↦ rw (
    ne→== (m i) 10 (before i (omega arith) (omega arith)),
    line_end-found m n (i + 1) index (omega arith) (omega arith) at
        (λ j lo' hi'. before j (omega arith) hi'),
  )
]

offset-read :
    (typed index : ℕ)
    → index < typed
    → pos typed -ℤ (pos index -ℤ pos 1) ≡ pos (typed - (index + 1) + 2)
unfolding ◌-ℤ◌
offset-read typed zero lt = ground arith
offset-read typed (suc index) lt = ground arith

read-front :
    (m buf : Bytes) (index b : ℕ)
    → memmov m 0 buf 0 (index + 1) b ≡ (if ltb b (index + 1) then m b else buf b)
read-front m buf index b = memmov_at (index + 1) m 0 buf 0 b ∙ ground arith

read-rest :
    (m : Bytes) (index b : ℕ)
    → index < 512
    → move_within m (index + 1) 0 (512 - index - 1) b
      ≡ (if ltb b (511 - index) then m (b + (index + 1)) else m b)
read-rest m index b hi =
    move_within_at (512 - index - 1) m (index + 1) 0 b (inl (omega arith)) ∙ ground arith

-- Where the first line feed of the buffer is at `index`, below 512 and below the offset,
-- `readStdin` returns index + 1, gives the caller the bytes up to it and moves the rest of the
-- buffer to its start; the offset goes down by index - 1, so it is 2 more than the number of
-- characters that are left.
pub read_stdin_lem :
    (k : Keyboard) (buf : Bytes) (index typed : ℕ)
    → index < 512
    → k.key_buffer index ≡ 10
    → ((j : ℕ) → j < index → k.key_buffer j ≢ 10)
    → k.offset ≡ pos typed
    → index < typed
    → (out left : Bytes) × ((read_stdin k buf
          ≡ some (
            index + 1,
            out,
            record k { key_buffer = left; offset = pos (typed - (index + 1) + 2) },
          ))
        × ((b : ℕ) → out b ≡ (if ltb b (index + 1) then k.key_buffer b else buf b))
        × ((b : ℕ)
            → left b
              ≡ (if ltb b (511 - index) then k.key_buffer (b + (index + 1)) else k.key_buffer b)))
unfolding read_stdin ◌-ℤ◌
read_stdin_lem k buf index typed hi at first at_typed lt =
    let found =
      line_end-found k.key_buffer 512 0 index (omega arith) (omega arith) at (λ j lo'. first j) in
    (
      memmov k.key_buffer 0 buf 0 (index + 1),
      move_within k.key_buffer (index + 1) 0 (512 - index - 1),
      (
        rw (found, at_typed, offset-read typed index lt),
        read-front k.key_buffer buf index,
        (λ b. read-rest k.key_buffer index b hi),
      ),
    )

-- A line of less than 512 characters, none of them 0, a backspace or a line feed, typed into an
-- empty buffer and followed by a line feed: the handler takes them all, and `readStdin` gives the
-- caller the same characters and the line feed, and returns their number.
pub read_stdin-handle_codes :
    (text : List ℕ) (m : Bytes) (shift : ℕ) (s : Screen) (buf : Bytes)
    → AllTyped text
    → length text < 512
    → (k : Keyboard) × (s' : Screen) × ((handle_codes
            (text ++ (10 ∷ []))
            (record { key_buffer = m; offset = pos 0; status_shift = shift })
            s
          ≡ some (k, s'))
        × ((out : Bytes) × (k' : Keyboard) × ((read_stdin k buf ≡ some (length text + 1, out, k'))
              × ((i : ℕ) → i < length text → out i ≡ get_or text i 0)
              × (out (length text) ≡ 10))))
read_stdin-handle_codes text m shift s buf typed room =
    let all = stored (text ++ (10 ∷ [])) 0 m in
    let at_end : all (length text) ≡ 10 = stored0-end text 10 m in
    let before : (j : ℕ) → j < length text → all j ≡ get_or text j 0 = stored0-front text 10 m in
    let k = keyboard all (0 + length text + 1) shift in
    let e : 0 + length text + 1 ≡ length text + 1 = omega arith in
    let (out, left, (run, here, rest)) =
      read_stdin_lem k buf (length text) (length text + 1) room at_end
        (λ j lt eq. get_or-typed text j typed lt (sym (before j lt) ∙ eq)) (ap pos e)
        (omega arith) in
    let front : (i : ℕ) → i < length text + 1 → out i ≡ all i =
      λ i lt. here i ∙ rw (lt→ltb i (length text + 1) lt) in
    (
      k,
      _,
      (
        handle_codes-typed text 0 m shift s typed (omega arith),
        (
          out,
          _,
          (
            run,
            (λ i lt. front i (omega arith) ∙ before i lt),
            front (length text) (omega arith) ∙ at_end,
          ),
        ),
      ),
    )
