-- ===== src/Strings/Match.antt =====
-- What `strcmpa` and `strmatch` find.
use mathlib.Core.Path.{subst}
use nbos.Base.{
  ==_iff, ℕ, zero, suc, ◌+◌, ◌-◌, ◌<◌, ◌≡◌, ◌≢◌, inl, inr, refl, sym, ap, ◌∙◌, arith, true, some,
  ◌==◌, if◌then◌else◌, ne→==, ==_refl, Bool-cases, leb,
}
use nbos.Base.Bytes.{Bytes}
use nbos.Base.Int.{pos, negsuc}
use nbos.Strings.{
  strcmpa, char_gt, skip, match_loop, strmatch, MatchResult, found, missing, undefined, says_same,
}
use nbos.Strings.Search.{IsText, strsize-text}

-- The same bytes on `size` places.
abbrev pub Same : Bytes → ℕ → Bytes → ℕ → ℕ → Type 0
Same m a m' b size = (k : ℕ) → k < size → m (a + k) ≡ m' (b + k)

-- Equal texts compare as 0.
pub strcmpa-Same :
    (m : Bytes) (a : ℕ) (m' : Bytes) (b size : ℕ)
    → Same m a m' b size
    → strcmpa m a m' b size ≡ pos 0
unfolding strcmpa
strcmpa-Same m a m' b zero same = refl
strcmpa-Same m a m' b (suc size) same =
    let e : m a ≡ m' b = ap m (omega arith) ∙ same 0 (omega arith) ∙ ap m' (omega arith) in
    rw (
      e,
      ==_refl (m' b),
      strcmpa-Same m (a + 1) m' (b + 1) size
          (λ k lt. ap m (omega arith) ∙ same (suc k) (omega arith) ∙ ap m' (omega arith)),
    )

-- The first place `k` at which the texts differ decides the sign.
pub strcmpa-differ :
    (m : Bytes) (a : ℕ) (m' : Bytes) (b size k : ℕ)
    → k < size
    → Same m a m' b k
    → m (a + k) ≢ m' (b + k)
    → strcmpa m a m' b size ≡ (if char_gt (m (a + k)) (m' (b + k)) then pos 1 else negsuc 0)
unfolding strcmpa
strcmpa-differ m a m' b zero k lt same ne = absurd (omega arith)
strcmpa-differ m a m' b (suc size) zero lt same ne =
    let ea : a + 0 ≡ a = omega arith in
    let eb : b + 0 ≡ b = omega arith in
    rw (ea, eb, ne→== (m a) (m' b) (λ e. ne (ap m ea ∙ e ∙ ap m' (sym eb))))
strcmpa-differ m a m' b (suc size) (suc k) lt same ne =
    let ea : a + suc k ≡ a + 1 + k = omega arith in
    let eb : b + suc k ≡ b + 1 + k = omega arith in
    let e : m a ≡ m' b = ap m (omega arith) ∙ same 0 (omega arith) ∙ ap m' (omega arith) in
    rw (ea, eb, e, ==_refl (m' b))
      (strcmpa-differ m (a + 1) m' (b + 1) size k (omega arith)
        (λ j lt. ap m (omega arith) ∙ same (suc j) (omega arith) ∙ ap m' (omega arith))
        (λ e. ne (ap m ea ∙ e ∙ ap m' (sym eb))))

-- What a result says of the place that it names.
abbrev Sound : Bytes → ℕ → Bytes → MatchResult → Type 0
Sound source n dest (found k) = says_same (strcmpa source 0 dest k n) ≡ true
Sound source n dest missing = Unit
Sound source n dest undefined = Unit

match_loop-Sound :
    (fuel : ℕ) (source : Bytes) (n : ℕ) (dest : Bytes) (size offset : ℕ)
    → Sound source n dest (match_loop fuel source n dest offset size offset)
unfolding match_loop
match_loop-Sound zero source n dest size offset = tt
match_loop-Sound (suc fuel) source n dest size offset =
    let skipped = skip (source 0) dest offset (size - offset) in
    elim (Bool-cases (leb size offset)) [
      | inl e ↦ rw e tt
      | inr e ↦ elim (Bool-cases (offset + skipped == size)) [
        | inl f ↦ rw (e, f) tt
        | inr f ↦ elim (Bool-cases (says_same (strcmpa source 0 dest (offset + skipped) n))) [
          | inl g ↦ rw (e, f, g) g
          | inr g ↦ rw (e, f, g) (match_loop-Sound fuel source n dest size (offset + skipped + 1))
        ]
      ]
    ]

strcmpa-next :
    (m : Bytes) (a : ℕ) (m' : Bytes) (b size : ℕ)
    → says_same (strcmpa m a m' b (suc size)) ≡ true
    → (m a ≡ m' b) × (says_same (strcmpa m (a + 1) m' (b + 1) size) ≡ true)
unfolding strcmpa
strcmpa-next m a m' b size zero_result = elim (Bool-cases (m a == m' b)) [
  | inl e ↦
      let step : strcmpa m a m' b (suc size) ≡ strcmpa m (a + 1) m' (b + 1) size = rw e in
      ((==_iff (m a) (m' b)).0 e, ap says_same (sym step) ∙ zero_result)
  | inr e ↦ elim (Bool-cases (char_gt (m a) (m' b))) [
    | inl g ↦
        let step : strcmpa m a m' b (suc size) ≡ pos 1 = rw (e, g) in
        cc (ap says_same step, zero_result)
    | inr g ↦
        let step : strcmpa m a m' b (suc size) ≡ negsuc 0 = rw (e, g) in
        cc (ap says_same step, zero_result)
  ]
]

-- `strcmpa` returns 0 only where the texts are the same.
pub strcmpa-zero :
    (m : Bytes) (a : ℕ) (m' : Bytes) (b size : ℕ)
    → says_same (strcmpa m a m' b size) ≡ true
    → Same m a m' b size
strcmpa-zero m a m' b zero zero_result = λ k lt. absurd (omega arith)
strcmpa-zero m a m' b (suc size) zero_result =
    let (here, later) = strcmpa-next m a m' b size zero_result in
    next here (strcmpa-zero m (a + 1) m' (b + 1) size later)
  where
    next : (m a ≡ m' b) → Same m (a + 1) m' (b + 1) size → Same m a m' b (suc size)
    next here rest zero lt = ap m (omega arith) ∙ here ∙ ap m' (omega arith)
    next here rest (suc k) lt = ap m (omega arith) ∙ rest k (omega arith) ∙ ap m' (omega arith)

-- Where `strmatch` returns an offset `k` for a source of `n` characters, all characters of the
-- source stand at `k`.
pub strmatch-found :
    (fuel : ℕ) (source dest : Bytes) (size n k : ℕ)
    → IsText source 0 n
    → n < fuel
    → strmatch fuel source dest size ≡ some (found k)
    → Same source 0 dest k n
unfolding strmatch
strmatch-found fuel source dest size n k text hi result =
    let run : strmatch fuel source dest size ≡ some (match_loop (size + 1) source n dest 0 size 0) =
      rw (strsize-text fuel source 0 n text hi) in
    let at_k : match_loop (size + 1) source n dest 0 size 0 ≡ found k = cc (run, result) in
    strcmpa-zero source 0 dest k n
      (subst (Sound source n dest) at_k (match_loop-Sound (size + 1) source n dest size 0))
