-- ===== src/Keyboard/Shift.antt =====
-- The state of the shift key.
use nbos.Base.{
  ◌+◌, ℕ, Option, none, some, ◌≡◌, refl, ap, sym, ◌∙◌, ◌==◌, ◌||◌, Bool-cases, inl, inr, get_elem?,
}
use nbos.Base.Int.{pos}
use nbos.Keyboard.{
  Keyboard, get_ascii, break_code, is_break_code, int_eq, signed_char, with_keyboard, l_shift_make,
  r_shift_make, keymap, keymaps,
}

break_code-idle : (scancode : ℕ) (k : Keyboard) → break_code scancode k ≡ k
unfolding break_code
break_code-idle scancode k =
    elim (Bool-cases (
      int_eq (signed_char scancode) (pos (l_shift_make + 0x80))
      || int_eq (signed_char scancode) (pos (r_shift_make + 0x80)))) [ inl e ↦ rw e | inr e ↦ rw e ]

-- The state of the shift key after a scan code (1 where there is no result).
abbrev shift_of : Option (ℕ × Keyboard) → ℕ
shift_of none = 1
shift_of (some (code, k)) = k.status_shift

shift_of-with_keyboard :
    (a : Option ℕ) (k : Keyboard) → k.status_shift ≡ 1 → shift_of (with_keyboard a k) ≡ 1
shift_of-with_keyboard none k on = refl
shift_of-with_keyboard (some a) k on = on

shift_of-get_ascii :
    (scancode : ℕ) (k : Keyboard) → k.status_shift ≡ 1 → shift_of (get_ascii scancode k) ≡ 1
unfolding get_ascii
shift_of-get_ascii scancode k on = elim (Bool-cases (is_break_code scancode)) [
  | inl e ↦ rw (e, break_code-idle scancode k, on)
  | inr e ↦ elim (Bool-cases (scancode == l_shift_make || scancode == r_shift_make)) [
    | inl f ↦ rw (e, f)
    | inr f ↦ elim (Bool-cases (k.status_shift == 1)) [
      | inl g ↦ rw (e, f, g, shift_of-with_keyboard (get_elem? keymaps scancode) k on)
      | inr g ↦ rw (e, f, g, shift_of-with_keyboard (get_elem? keymap scancode) k on)
    ]
  ]
]

-- Once the shift key has been pressed, no scan code resets its state: neither the release of a shift
-- key nor any other code for which the handler returns.
pub get_ascii-keeps_shift :
    (scancode code : ℕ) (k k' : Keyboard)
    → k.status_shift ≡ 1
    → get_ascii scancode k ≡ some (code, k')
    → k'.status_shift ≡ 1
get_ascii-keeps_shift scancode code k k' on run =
    sym (ap shift_of run) ∙ shift_of-get_ascii scancode k on
