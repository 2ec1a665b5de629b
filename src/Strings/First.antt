-- ===== src/Strings/First.antt =====
-- `strmatch` finds the first place at which the source stands.
use nbos.Base.{
  ==_iff, ℕ, zero, suc, ◌+◌, ◌-◌, ◌≤◌, ◌<◌, ◌≡◌, ◌≢◌, ◌⊎◌, inl, inr, refl, sym, ap, ◌∙◌, arith,
  true, false, some, ◌==◌, ne→==, ==_refl, Bool-cases, leb,
}
use native.Mathlib.Decide.{ℕ_discrete}
use nbos.Base.Bytes.{Bytes}
use nbos.Strings.{skip, strcmpa, match_loop, strmatch, MatchResult, says_same}
use nbos.Strings.Search.{IsText, strsize-text}
use nbos.Strings.Match.{Same, strcmpa-Same, strcmpa-zero}

skip-le :
    (first : ℕ) (dest : Bytes) (n string k : ℕ)
    → string ≤ k
    → k < string + n
    → dest k ≡ first
    → string + skip first dest string n ≤ k
unfolding skip
skip-le first dest zero string k lo hi at = absurd (omega arith)
skip-le first dest (suc n) string k lo hi at = elim (Bool-cases (dest string == first)) [
  | inl here ↦ rw here (omega arith)
  | inr other ↦ elim (ℕ_discrete string k) [
    | yes e ↦ rw other (ground (arith, ap dest e))
    | no ne ↦
        rw other (omega (arith, skip-le first dest n (string + 1) k (omega arith) (omega arith) at))
  ]
]

module _ (source : Bytes) (n : ℕ) (dest : Bytes) (size k : ℕ) (some_char : 0 < n)
    (inside : k < size) (here : Same source 0 dest k n) where
  match_loop-first :
      (fuel o : ℕ)
      → o ≤ k
      → k < o + fuel
      → ((j : ℕ) → j < k → ¬ Same source 0 dest j n)
      → match_loop fuel source n dest o size o ≡ MatchResult.found k
  unfolding match_loop
  match_loop-first zero o lo hi before = absurd (omega arith)
  match_loop-first (suc fuel) o lo hi before =
      let skipped = skip (source 0) dest o (size - o) in
      let char : dest k ≡ source 0 = ap dest (omega arith) ∙ sym (here 0 some_char) in
      let near : o + skipped ≤ k = skip-le (source 0) dest (size - o) o k lo (omega arith) char in
      let in_range : leb size o ≡ false = ground arith in
      let not_end : (o + skipped == size) ≡ false = ne→== _ _ (omega arith) in
      elim (ℕ_discrete (o + skipped) k) [
        | yes e ↦
            let same : says_same (strcmpa source 0 dest (o + skipped) n) ≡ true =
              rw (e, strcmpa-Same source 0 dest k n here) in
            rw (in_range, not_end, same) (ap MatchResult.found e)
        | no ne ↦ elim (Bool-cases (says_same (strcmpa source 0 dest (o + skipped) n))) [
          | inl same ↦
              absurd (
                before (o + skipped) (omega arith)
                  (strcmpa-zero source 0 dest (o + skipped) n same))
          | inr differ ↦
              rw (in_range, not_end, differ)
                (match_loop-first fuel (o + skipped + 1) (omega arith) (omega arith) before)
        ]
      ]

-- A source of one character at least that stands at `k`, and nowhere before it, is found at `k`.
pub strmatch-first :
    (fuel : ℕ) (source dest : Bytes) (size n k : ℕ)
    → IsText source 0 n
    → n < fuel
    → 0 < n
    → k < size
    → Same source 0 dest k n
    → ((j : ℕ) → j < k → ¬ Same source 0 dest j n)
    → strmatch fuel source dest size ≡ some (MatchResult.found k)
unfolding strmatch
strmatch-first fuel source dest size n k text hi some_char inside here before = rw (
  strsize-text fuel source 0 n text hi,
  match_loop-first source n dest size k some_char inside here (size + 1) 0 (omega arith)
      (omega arith) before,
)

skip-stop :
    (first : ℕ) (dest : Bytes) (n string : ℕ)
    → (skip first dest string n ≤ n)
      × ((skip first dest string n ≡ n) ⊎ (dest (string + skip first dest string n) ≡ first))
unfolding skip
skip-stop first dest zero string = (omega arith, inl refl)
skip-stop first dest (suc n) string = elim (Bool-cases (dest string == first)) [
  | inl here ↦
      rw here (omega arith, inr (ap dest (omega arith) ∙ (==_iff (dest string) first).0 here))
  | inr other ↦
      let (le, stop) = skip-stop first dest n (string + 1) in
      rw other (
        omega (arith, le),
        elim stop [ inl e ↦ inl (ap suc e) | inr e ↦ inr (ap dest (omega arith) ∙ e) ],
      )
]

module _ (source : Bytes) (n : ℕ) (dest : Bytes) (size : ℕ)
    (absent : (j : ℕ) → j < size → ¬ Same source 0 dest j n)
    (last : dest (size - 1) ≢ source 0) where
  match_loop-missing :
      (fuel o : ℕ)
      → o < size
      → size < o + fuel
      → match_loop fuel source n dest o size o ≡ MatchResult.missing
  unfolding match_loop
  match_loop-missing zero o lo hi = absurd (omega arith)
  match_loop-missing (suc fuel) o lo hi =
      let skipped = skip (source 0) dest o (size - o) in
      let (le, stop) = skip-stop (source 0) dest (size - o) o in
      let in_range : leb size o ≡ false = ground arith in
      elim (ℕ_discrete (o + skipped) size) [
        | yes e ↦ rw (in_range, e, ==_refl size)
        | no ne ↦ elim stop [
          | inl all ↦ absurd (omega (arith, ne))
          | inr char ↦ elim (Bool-cases (says_same (strcmpa source 0 dest (o + skipped) n))) [
            | inl same ↦ absurd (
                absent (o + skipped) (omega (arith, ne))
                  (strcmpa-zero source 0 dest (o + skipped) n same))
            | inr differ ↦
                rw (in_range, ne→== (o + skipped) size ne, differ)
                  (match_loop-missing fuel (o + skipped + 1) (room skipped ne le char)
                    (omega arith))
          ]
        ]
      ]
    where
      room : (s : ℕ) → o + s ≢ size → s ≤ size - o → dest (o + s) ≡ source 0 → o + s + 1 < size
      room s ne le char = elim (ℕ_discrete (o + s) (size - 1)) [
        | yes e ↦ absurd (last (ap dest (sym e) ∙ char))
        | no ne' ↦ omega arith
      ]

-- A source that stands nowhere is missing, if its first character is not the text's last one.
pub strmatch-missing :
    (fuel : ℕ) (source dest : Bytes) (size n : ℕ)
    → IsText source 0 n
    → n < fuel
    → 0 < size
    → dest (size - 1) ≢ source 0
    → ((j : ℕ) → j < size → ¬ Same source 0 dest j n)
    → strmatch fuel source dest size ≡ some MatchResult.missing
unfolding strmatch
strmatch-missing fuel source dest size n text hi lo last absent = rw (
  strsize-text fuel source 0 n text hi,
  match_loop-missing source n dest size absent last (size + 1) 0 (omega arith) (omega arith),
)
