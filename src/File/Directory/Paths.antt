-- ===== src/File/Directory/Paths.antt =====
-- A path of a file in the root directory, and what the string functions make of it.
use nbos.Base.{
  ℕ, zero, suc, ◌+◌, ◌≤◌, ◌<◌, ◌≡◌, ◌≢◌, inl, inr, refl, sym, ap, ◌∙◌, arith, Bool, true, false,
  some, ne→==, if◌then◌else◌,
}
use native.Mathlib.Decide.{ℕ_discrete}
use nbos.Base.Bytes.{Bytes}
use nbos.Base.Int.{pos, negsuc}
use nbos.Memory.Copy.{memmov, memmov-front}
use nbos.Strings.{
  strsize, strcmpa, says_same, findfirstsprt, findlastsprt, strcount, count_loop, strcut, char_gt,
}
use nbos.Strings.Search.{
  IsText, strsize-text, findfirstsprt_lem, findlastsprt-found, first_loop-start,
}
use nbos.Strings.Match.{strcmpa-differ}
use nbos.File.Directory.{path_copy, root_dir, slash, last_name}

-- "/" and a name of `n` characters, which fits into a directory's item.
pub record IsRootFile (m : Bytes) (path n : ℕ) : Type 0 where
  pub root : m path ≡ slash
  pub some_char : 0 < n
  pub short : n < 20
  pub chars : (j : ℕ) → j < n → (m (path + 1 + j) ≢ slash) × (m (path + 1 + j) ≢ 0)
  pub end : m (path + 1 + n) ≡ 0

-- No separator is counted in a text without one.
count_loop-none :
    (fuel : ℕ) (m : Bytes) (start a count n : ℕ)
    → n < fuel
    → ((j : ℕ) → j < n → (m (start + j) ≢ a) × (m (start + j) ≢ 0))
    → m (start + n) ≡ 0
    → count_loop fuel m start a count ≡ some count
unfolding count_loop
count_loop-none zero m start a count n lt chars end = absurd (omega arith)
count_loop-none (suc fuel) m start a count zero lt chars end =
    let e : start + 0 ≡ start = omega arith in
    let here : m start ≡ 0 = ap m (sym e) ∙ end in rw here
count_loop-none (suc fuel) m start a count (suc n) lt chars end =
    let e : start + 0 ≡ start = omega arith in
    let (no_a, no_end) = chars 0 (omega arith) in
    rw (ne→== (m start) a (λ h. no_a (ap m e ∙ h)), ne→== (m start) 0 (λ h. no_end (ap m e ∙ h)))
      (count_loop-none fuel m (start + 1) a count n (omega arith)
        (λ j lt'. (
          λ h. (chars (suc j) (omega arith)).0 (ap m (omega arith) ∙ h),
          λ h. (chars (suc j) (omega arith)).1 (ap m (omega arith) ∙ h),
        ))
        (ap m (omega arith) ∙ end))

module _ (m : Bytes) (path n : ℕ) (file : IsRootFile m path n) where
  name-IsText : IsText m (path + 1) n
  name-IsText = record { chars = λ j lt. (file.chars j lt).1; end = file.end }

  path-IsText : IsText m path (n + 1)
  path-IsText = record { chars = char; end = ap m (omega arith) ∙ file.end }
    where
      char : (j : ℕ) → j < n + 1 → m (path + j) ≢ 0
      char zero lt e =
          let here : m path ≡ 0 = ap m (omega arith) ∙ e in omega (arith, file.root, here)
      char (suc j) lt e = (file.chars j (omega arith)).1 (ap m (omega arith) ∙ e)

  pub strsize-path : strsize 100 m path ≡ some (n + 1)
  strsize-path = strsize-text 100 m path (n + 1) path-IsText (omega (arith, file.short))

  pub strsize-name : strsize 100 m (path + 1) ≡ some n
  strsize-name = strsize-text 100 m (path + 1) n name-IsText (omega (arith, file.short))

  at_start : m (path + 0) ≡ slash
  at_start = ap m (omega arith) ∙ file.root

  pub findfirstsprt-path : findfirstsprt 100 m path slash ≡ some (pos 0)
  findfirstsprt-path =
      findfirstsprt_lem 100 m path slash 0 (λ j lt. absurd (omega arith)) (inl at_start)
        (omega arith)
      ∙ rw at_start

  pub findfirstsprt-name : findfirstsprt 100 m (path + 1) slash ≡ some (negsuc 0)
  findfirstsprt-name =
      findfirstsprt_lem 100 m (path + 1) slash n file.chars (inr file.end)
        (omega (arith, file.short))
      ∙ rw file.end

  -- The only separator is the first character.
  pub findlastsprt-path : findlastsprt 100 m path slash ≡ some (pos 0)
  findlastsprt-path =
      findlastsprt-found 100 m path slash (n + 1) 0 path-IsText (omega (arith, file.short))
        (omega arith) at_start behind_root
    where
      behind_root : (j : ℕ) → 0 < j → j ≤ n + 1 → m (path + j) ≢ slash
      behind_root zero lo hi e = absurd (omega arith)
      behind_root (suc j) lo hi e = elim (ℕ_discrete j n) [
        | yes same ↦
            let here : m (path + suc j) ≡ 0 = ap m (omega arith) ∙ file.end in
            omega (arith, here, e)
        | no other ↦ (file.chars j (omega arith)).0 (ap m (omega arith) ∙ e)
      ]

  pub strcut-name :
      (behind : Bytes)
      → strcut 20 m (path + 1) slash behind 0 ≡ some (memmov m (path + 1) behind 0 (n + 1))
  unfolding strcut
  strcut-name behind =
      rw (first_loop-start 20 m (path + 1) slash n file.chars (inr file.end) file.short)

  pub strcount-path : strcount 100 m path slash ≡ some 1
  unfolding strcount count_loop
  strcount-path =
      rw (file.root)
        (count_loop-none 99 m (path + 1) slash 1 n (omega (arith, file.short)) file.chars file.end)

  pub last_name-path : last_name 1 m path ≡ some (path + 1)
  unfolding last_name
  last_name-path = rw findfirstsprt-path

  -- The path is not the root directory itself.
  pub path-is_not_root : says_same (strcmpa m path root_dir 0 (n + 1)) ≡ false
  path-is_not_root =
      rw (strcmpa-differ m path root_dir 0 (n + 1) 1 (omega (arith, file.some_char)) same differ)
        (sign (char_gt (m (path + 1)) (root_dir (0 + 1))))
    where
      same : (j : ℕ) → j < 1 → m (path + j) ≡ root_dir (0 + j)
      same zero lt = at_start
      same (suc j) lt = absurd (omega arith)

      differ : m (path + 1) ≢ root_dir (0 + 1)
      differ e = (file.chars 0 file.some_char).1 (ap m (omega arith) ∙ e)

      sign : (b : Bool) → says_same (if b then pos 1 else negsuc 0) ≡ false
      sign true = refl
      sign false = refl

-- The path's copy is such a path too.
pub copy-IsRootFile :
    (m : Bytes) (path n : ℕ) (behind : Bytes)
    → IsRootFile m path n
    → IsRootFile (memmov m path behind 0 (n + 1 + 1)) 0 n
copy-IsRootFile m path n behind file = record {
  root = copied 0 (omega arith) ∙ ap m (omega arith) ∙ file.root;
  some_char = file.some_char;
  short = file.short;
  chars = λ j lt. (
    λ e. (file.chars j lt).0 (ap m (omega arith) ∙ sym (copied (0 + 1 + j) (omega arith)) ∙ e),
    λ e. (file.chars j lt).1 (ap m (omega arith) ∙ sym (copied (0 + 1 + j) (omega arith)) ∙ e),
  );
  end = copied (0 + 1 + n) (omega arith) ∙ ap m (omega arith) ∙ file.end;
}
  where
    copied : (k : ℕ) → k < n + 2 → memmov m path behind 0 (n + 1 + 1) k ≡ m (path + k)
    copied k lt = memmov-front (n + 1 + 1) m path behind k (omega arith)

pub path_copy-path :
    (m : Bytes) (path n : ℕ) (behind : Bytes)
    → IsRootFile m path n
    → path_copy behind m path ≡ some (memmov m path behind 0 (n + 1 + 1))
unfolding path_copy
path_copy-path m path n behind file = rw (strsize-path m path n file)
