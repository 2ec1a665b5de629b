-- ===== src/Strings/Search.antt =====
-- Where `strsize`, `findfirstsprt` and `findlastsprt` stop.
use nbos.Base.{
  ℕ, zero, suc, ◌+◌, ◌≤◌, ◌<◌, ◌≡◌, ◌≢◌, ◌⊎◌, inl, inr, refl, sym, ap, ◌∙◌, arith, some, ◌==◌,
  if◌then◌else◌, ne→==, ==_refl, Bool-cases,
}
use native.Mathlib.Decide.{ℕ_discrete}
use nbos.Base.Bytes.{Bytes}
use nbos.Base.Int.{pos, negsuc}
use nbos.Strings.{
  size_loop, strsize, last_loop, findlastsprt, first_loop, findfirstsprt, last_found,
}

-- The text at `string` has `n` characters, and a 0 behind them.
pub record IsText (m : Bytes) (string n : ℕ) : Type 0 where
  pub chars : (j : ℕ) → j < n → m (string + j) ≢ 0
  pub end : m (string + n) ≡ 0

size_loop-text :
    (fuel : ℕ) (m : Bytes) (string size i n : ℕ)
    → IsText m string n
    → i ≤ n
    → n < i + fuel
    → size_loop fuel m (string + i) i ≡ some n
unfolding size_loop
size_loop-text zero m string size i n text lo hi = absurd (omega arith)
size_loop-text (suc fuel) m string size i n text lo hi = elim (ℕ_discrete i n) [
  | yes e ↦ rw (e, text.end)
  | no ne ↦
      let e : string + i + 1 ≡ string + (i + 1) = omega arith in
      rw (
        ne→== _ _ (text.chars i (omega arith)),
        e,
        size_loop-text fuel m string size (i + 1) n text (omega arith) (omega arith),
      )
]

-- `strsize` returns the number of characters, if it may take one round more.
pub strsize-text :
    (fuel : ℕ) (m : Bytes) (string n : ℕ)
    → IsText m string n
    → n < fuel
    → strsize fuel m string ≡ some n
unfolding strsize
strsize-text fuel m string n text hi =
    let e : string ≡ string + 0 = omega arith in
    ap (λ x. size_loop fuel m x 0) e
    ∙ size_loop-text fuel m string 0 0 n text (omega arith) (omega arith)

first_loop_lem :
    (fuel : ℕ) (m : Bytes) (string separator i k : ℕ)
    → ((j : ℕ) → j < k → (m (string + j) ≢ separator) × (m (string + j) ≢ 0))
    → (m (string + k) ≡ separator) ⊎ (m (string + k) ≡ 0)
    → i ≤ k
    → k < i + fuel
    → first_loop fuel m (string + i) separator i ≡ some k
unfolding first_loop
first_loop_lem zero m string separator i k before at lo hi = absurd (omega arith)
first_loop_lem (suc fuel) m string separator i k before at lo hi = elim (ℕ_discrete i k) [
  | yes e ↦ elim at [
    | inl s ↦ rw (e, s, ==_refl separator)
    | inr z ↦ elim (Bool-cases (0 == separator)) [ inl t ↦ rw (e, z, t) | inr t ↦ rw (e, z, t) ]
  ]
  | no ne ↦
      let e : string + i + 1 ≡ string + (i + 1) = omega arith in
      let (no_sep, no_end) = before i (omega arith) in
      rw (
        ne→== _ _ no_sep,
        ne→== _ _ no_end,
        e,
        first_loop_lem fuel m string separator (i + 1) k before at (omega arith) (omega arith),
      )
]

-- From the start of the text on.
pub first_loop-start :
    (fuel : ℕ) (m : Bytes) (string separator k : ℕ)
    → ((j : ℕ) → j < k → (m (string + j) ≢ separator) × (m (string + j) ≢ 0))
    → (m (string + k) ≡ separator) ⊎ (m (string + k) ≡ 0)
    → k < fuel
    → first_loop fuel m string separator 0 ≡ some k
first_loop-start fuel m string separator k before at hi =
    let e : string ≡ string + 0 = omega arith in
    ap (λ x. first_loop fuel m x separator 0) e
    ∙ first_loop_lem fuel m string separator 0 k before at (omega arith) (omega arith)

-- The index of the first separator in a text, -1 if there is none before its end: `k` is the first
-- index at which the text has a separator or ends.
pub findfirstsprt_lem :
    (fuel : ℕ) (m : Bytes) (string separator k : ℕ)
    → ((j : ℕ) → j < k → (m (string + j) ≢ separator) × (m (string + j) ≢ 0))
    → (m (string + k) ≡ separator) ⊎ (m (string + k) ≡ 0)
    → k < fuel
    → findfirstsprt fuel m string separator ≡ some (if m (string + k) == 0 then negsuc 0 else pos k)
unfolding findfirstsprt
findfirstsprt_lem fuel m string separator k before at hi =
    rw (first_loop-start fuel m string separator k before at hi)

last_loop-found :
    (m : Bytes) (string separator n k : ℕ)
    → k ≤ n
    → m (string + k) ≡ separator
    → ((j : ℕ) → k < j → j ≤ n → m (string + j) ≢ separator)
    → last_loop m string separator n ≡ k
unfolding last_loop
last_loop-found m string separator zero k le at after = omega arith
last_loop-found m string separator (suc n) k le at after = elim (ℕ_discrete k (suc n)) [
  | yes e ↦
      let here : m (string + suc n) ≡ separator = ap (λ x. m (string + x)) (sym e) ∙ at in
      rw (here, ==_refl separator) (sym e)
  | no ne ↦ rw (
    ne→== _ _ (after (suc n) (omega arith) (omega arith)),
    last_loop-found m string separator n k (omega arith) at (λ j lo hi. after j lo (omega arith)),
  )
]

last_loop-none :
    (m : Bytes) (string separator n : ℕ)
    → ((j : ℕ) → j ≤ n → m (string + j) ≢ separator)
    → last_loop m string separator n ≡ 0
unfolding last_loop
last_loop-none m string separator zero absent = refl
last_loop-none m string separator (suc n) absent = rw (
  ne→== _ _ (absent (suc n) (omega arith)),
  last_loop-none m string separator n (λ j hi. absent j (omega arith)),
)

last_found-at :
    (m : Bytes) (string separator k : ℕ)
    → m (string + k) ≡ separator
    → last_found m string separator k ≡ pos k
last_found-at m string separator zero at =
    let e : string ≡ string + 0 = omega arith in
    let here : m string ≡ separator = ap m e ∙ at in rw (here, ==_refl separator)
last_found-at m string separator (suc k) at = rw (ne→== (suc k) 0 (λ e. absurd (omega arith)))

-- In a text of `n` characters with the last separator at `k`, the 0 at its end counted in,
-- `findlastsprt` returns `k`, within more than `n` rounds.
pub findlastsprt-found :
    (fuel : ℕ) (m : Bytes) (string separator n k : ℕ)
    → IsText m string n
    → n < fuel
    → k ≤ n
    → m (string + k) ≡ separator
    → ((j : ℕ) → k < j → j ≤ n → m (string + j) ≢ separator)
    → findlastsprt fuel m string separator ≡ some (pos k)
unfolding findlastsprt
findlastsprt-found fuel m string separator n k text hi le at after = rw (
  strsize-text fuel m string n text hi,
  last_loop-found m string separator n k le at after,
  last_found-at m string separator k at,
)

-- In a text of `n` characters without a separator, `findlastsprt` returns -1, within more than `n`
-- rounds.
pub findlastsprt-none :
    (fuel : ℕ) (m : Bytes) (string separator n : ℕ)
    → IsText m string n
    → n < fuel
    → ((j : ℕ) → j ≤ n → m (string + j) ≢ separator)
    → findlastsprt fuel m string separator ≡ some (negsuc 0)
unfolding findlastsprt
findlastsprt-none fuel m string separator n text hi absent =
    let e : string + 0 ≡ string = omega arith in
    rw (
      strsize-text fuel m string n text hi,
      last_loop-none m string separator n absent,
      ne→== _ _ (λ s. absent 0 (omega arith) (ap m e ∙ s)),
    )
