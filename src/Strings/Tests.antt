-- ===== src/Strings/Tests.antt =====
-- The theorems on strings at concrete texts.
use native.Mathlib.Omega.{arith}
use mathlib.Core.Path.{◌≡◌, refl}
use nbos.Base.{ℕ, zero, suc, ◌+◌, ◌<◌, ◌≢◌, some, ◌==◌, ltb, if◌then◌else◌}
use nbos.Base.Bytes.{Bytes}
use nbos.Strings.{strmatch, found}
use nbos.Strings.Search.{IsText}
use nbos.Strings.Match.{Same}
use nbos.Strings.First.{strmatch-first}

-- "//" and a 0.
abbrev path : Bytes
path k = if ltb k 2 then 47 else 0

path-chars : (j : ℕ) → j < 2 → path (0 + j) ≢ 0
path-chars zero lt = λ e. absurd (omega arith)
path-chars (suc zero) lt = λ e. absurd (omega arith)
path-chars (suc (suc j)) lt = absurd (omega arith)

path-IsText : IsText path 0 2
path-IsText = record { chars = path-chars; end = refl }

-- "a//".
abbrev texts : Bytes
texts k = if k == 0 then 97 else if ltb k 3 then 47 else 0

stands : Same path 0 texts 1 2
stands zero lt = refl
stands (suc zero) lt = refl
stands (suc (suc j)) lt = absurd (omega arith)

not_before : (j : ℕ) → j < 1 → ¬ Same path 0 texts j 2
not_before zero lt same = let first : 47 ≡ 97 = same 0 (omega arith) in omega (arith, first)
not_before (suc j) lt same = absurd (omega arith)

strmatch-first_example : strmatch 9 path texts 4 ≡ some (found 1)
strmatch-first_example =
    strmatch-first 9 path texts 4 2 1 path-IsText (omega arith) (omega arith) (omega arith) stands
      not_before
