-- ===== src/Base/Bytes.antt =====
-- A region of memory by byte offsets, and the little-endian words in it.
use Prim.Native.Nat.{ℕ, ◌+◌, ◌*◌, ◌/◌, ◌%◌, ◌^◌, ◌≤◌, ◌<◌, zero, suc}
use mathlib.Core.Path.{◌≡◌, ap, ◌∙◌, ap₂}
use mathlib.Core.Logic.{◌⊎◌}
use mathlib.Core.List.{List, [], ◌∷◌, ◌++◌}
use nbos.Base.Lists.{length, get_or}
use native.Mathlib.Omega.{arith}
use nbos.Base.Tests.{◌==◌, if◌then◌else◌}

-- From a byte's position to its value.
abbrev pub Bytes : Type 0
Bytes = ℕ → ℕ

-- Each position holds a byte.
abbrev pub IsBytes : Bytes → Type 0
IsBytes b = (i : ℕ) → b i < 256

unfoldable pub read16 : Bytes → ℕ → ℕ
read16 b o = b o + 256 * b (o + 1)

unfoldable pub read32 : Bytes → ℕ → ℕ
read32 b o = b o + 256 * b (o + 1) + 65536 * b (o + 2) + 16777216 * b (o + 3)

unfoldable pub write8 : Bytes → ℕ → ℕ → Bytes
write8 b o v i = if i == o then v % 256 else b i

unfoldable pub write16 : Bytes → ℕ → ℕ → Bytes
unfolding write8
write16 b o v = write8 (write8 b o v) (o + 1) (v / 256)

unfoldable pub write32 : Bytes → ℕ → ℕ → Bytes
unfolding write8
write32 b o v =
    write8 (write8 (write8 (write8 b o v) (o + 1) (v / 256)) (o + 2) (v / 65536)) (o + 3)
      (v / 16777216)

pub read16-write16_self : (b : Bytes) (o v : ℕ) → v < 65536 → read16 (write16 b o v) o ≡ v
unfolding read16 write16
read16-write16_self b o v h = ground arith

pub read32-write32_self : (b : Bytes) (o v : ℕ) → v < 2 ^ 32 → read32 (write32 b o v) o ≡ v
unfolding read32 write32
read32-write32_self b o v h = ground arith

pub write32_out : (b : Bytes) (o v i : ℕ) → (i < o) ⊎ (o + 4 ≤ i) → write32 b o v i ≡ b i
unfolding write32
write32_out b o v i h = ground arith

pub write16_out : (b : Bytes) (o v i : ℕ) → (i < o) ⊎ (o + 2 ≤ i) → write16 b o v i ≡ b i
unfolding write16
write16_out b o v i h = ground arith

pub read32-write32_ne :
    (b : Bytes) (o v p : ℕ) → (p + 4 ≤ o) ⊎ (o + 4 ≤ p) → read32 (write32 b o v) p ≡ read32 b p
unfolding read32 write32
read32-write32_ne b o v p h = ground arith

-- Consecutive words from `o` on.
unfoldable pub write_words : Bytes → ℕ → List ℕ → Bytes
write_words b o [] = b
write_words b o (v ∷ vs) = write_words (write32 b o v) (o + 4) vs

unfoldable pub read_words : Bytes → ℕ → ℕ → List ℕ
read_words b o zero = []
read_words b o (suc n) = read32 b o ∷ read_words b (o + 4) n

abbrev pub AllWords : List ℕ → Type 0
AllWords [] = Unit
AllWords (v ∷ vs) = (v < 2 ^ 32) × AllWords vs

pub write_words_out :
    (b : Bytes) (o : ℕ) (vs : List ℕ) (i : ℕ)
    → (i < o) ⊎ (o + 4 * length vs ≤ i)
    → write_words b o vs i ≡ b i
unfolding write_words
write_words_out b o [] i h = ground arith
write_words_out b o (v ∷ vs) i h =
    write_words_out (write32 b o v) (o + 4) vs i (omega arith) ∙ write32_out b o v i (omega arith)

pub read32_eq :
    (b c : Bytes) (p : ℕ)
    → b p ≡ c p
    → b (p + 1) ≡ c (p + 1)
    → b (p + 2) ≡ c (p + 2)
    → b (p + 3) ≡ c (p + 3)
    → read32 b p ≡ read32 c p
unfolding read32
read32_eq b c p h0 h1 h2 h3 = omega arith

pub read32-write_words_ne :
    (b : Bytes) (o : ℕ) (vs : List ℕ) (p : ℕ)
    → (p + 4 ≤ o) ⊎ (o + 4 * length vs ≤ p)
    → read32 (write_words b o vs) p ≡ read32 b p
read32-write_words_ne b o vs p h =
    read32_eq (write_words b o vs) b p (write_words_out b o vs p (omega arith))
      (write_words_out b o vs (p + 1) (omega arith)) (write_words_out b o vs (p + 2) (omega arith))
      (write_words_out b o vs (p + 3) (omega arith))

pub read32-write_words_head :
    (b : Bytes) (o v : ℕ) (vs : List ℕ) → v < 2 ^ 32 → read32 (write_words b o (v ∷ vs)) o ≡ v
unfolding write_words
read32-write_words_head b o v vs h =
    read32-write_words_ne (write32 b o v) (o + 4) vs o (omega arith) ∙ read32-write32_self b o v h

-- A word of a written list is read back at its place.
pub read32-write_words :
    (b : Bytes) (o : ℕ) (vs : List ℕ) (k p : ℕ)
    → AllWords vs
    → k < length vs
    → p ≡ o + 4 * k
    → read32 (write_words b o vs) p ≡ get_or vs k 0
unfolding write_words
read32-write_words b o [] k p w h e = absurd (omega arith)
read32-write_words b o (v ∷ vs) zero p w h e =
    ap (read32 (write_words (write32 b o v) (o + 4) vs)) (omega arith)
    ∙ read32-write_words_head b o v vs w.0
read32-write_words b o (v ∷ vs) (suc k) p w h e =
    read32-write_words (write32 b o v) (o + 4) vs k p w.1 (omega arith) (omega arith)

pub write_words-append :
    (b : Bytes) (o : ℕ) (us vs : List ℕ)
    → write_words b o (us ++ vs) ≡ write_words (write_words b o us) (o + 4 * length us) vs
unfolding write_words
write_words-append b o [] vs = ap (λ k. write_words b k vs) (omega arith)
write_words-append b o (u ∷ us) vs =
    write_words-append (write32 b o u) (o + 4) us vs
    ∙ ap (λ k. write_words (write_words (write32 b o u) (o + 4) us) k vs) (omega arith)

-- A written list is read back.
pub read_words-write_words :
    (b : Bytes) (o : ℕ) (vs : List ℕ) (n : ℕ)
    → AllWords vs
    → n ≡ length vs
    → read_words (write_words b o vs) o n ≡ vs
unfolding read_words write_words
read_words-write_words b o [] zero w e = ground arith
read_words-write_words b o [] (suc n) w e = absurd (omega arith)
read_words-write_words b o (v ∷ vs) zero w e = absurd (omega arith)
read_words-write_words b o (v ∷ vs) (suc n) w e =
    ap₂ ◌∷◌ (read32-write_words_head b o v vs w.0)
      (read_words-write_words (write32 b o v) (o + 4) vs n w.1 (omega arith))

pub length-read_words : (b : Bytes) (o n : ℕ) → length (read_words b o n) ≡ n
unfolding read_words
length-read_words b o zero = omega arith
length-read_words b o (suc n) = omega (arith, length-read_words b (o + 4) n)

pub read_words_eq :
    (b c : Bytes) (o n : ℕ)
    → ((i : ℕ) → o ≤ i → i < o + 4 * n → b i ≡ c i)
    → read_words b o n ≡ read_words c o n
unfolding read_words
read_words_eq b c o zero h = ground arith
read_words_eq b c o (suc n) h =
    ap₂ ◌∷◌
      (read32_eq b c o (h o (omega arith) (omega arith)) (h (o + 1) (omega arith) (omega arith))
        (h (o + 2) (omega arith) (omega arith)) (h (o + 3) (omega arith) (omega arith)))
      (read_words_eq b c (o + 4) n (λ i lo hi. h i (omega arith) (omega arith)))
