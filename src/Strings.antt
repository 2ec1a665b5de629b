-- ===== src/Strings.antt =====
-- str.c: strings in memory, by the address of their first character.
pub mod Search
pub mod Match
pub mod First
mod Tests
use nbos.Base.{
  ℕ, zero, suc, ◌+◌, ◌-◌, ◌%◌, Bool, true, false, ◌&&◌, not, Option, none, some, ◌==◌, ltb, leb,
  if◌then◌else◌,
}
use nbos.Base.Bytes.{Bytes}
use nbos.Base.Int.{ℤ, pos, negsuc}
use nbos.Memory.Copy.{memmov}

-- The loop of `strsize`, with a bound on its rounds; `none` means that it is used up.
unfoldable pub size_loop : ℕ → Bytes → ℕ → ℕ → Option ℕ
size_loop zero m string size = none
size_loop (suc fuel) m string size =
    let rest = size_loop fuel m (string + 1) (size + 1) in if m string == 0 then some size else rest

unfoldable pub strsize : ℕ → Bytes → ℕ → Option ℕ
unfolding size_loop
strsize fuel m string = size_loop fuel m string 0

-- From `n` characters behind the string's start downwards, until the separator or the start.
unfoldable pub last_loop : Bytes → ℕ → ℕ → ℕ → ℕ
last_loop m string separator zero = zero
last_loop m string separator (suc n) =
    let rest = last_loop m string separator n in
    if m (string + suc n) == separator then suc n else rest

abbrev pub last_found : Bytes → ℕ → ℕ → ℕ → ℤ
last_found m string separator n =
    if (n == 0) && not (m string == separator) then negsuc 0 else pos n

abbrev pub last_of : Bytes → ℕ → ℕ → Option ℕ → Option ℤ
last_of m string separator none = none
last_of m string separator (some size) =
    some (last_found m string separator (last_loop m string separator size))

-- `separator` is the character that the pointer of that name leads to.
unfoldable pub findlastsprt : ℕ → Bytes → ℕ → ℕ → Option ℤ
findlastsprt fuel m string separator = last_of m string separator (strsize fuel m string)

-- The loop of `findfirstsprt` and `strcut`: the index at which it stops.
unfoldable pub first_loop : ℕ → Bytes → ℕ → ℕ → ℕ → Option ℕ
first_loop zero m string1 separator i = none
first_loop (suc fuel) m string1 separator i =
    let rest = first_loop fuel m (string1 + 1) separator (i + 1) in
    if not (m string1 == separator) && not (m string1 == 0) then rest else some i

abbrev pub first_of : Bytes → ℕ → Option ℕ → Option ℤ
first_of m string none = none
first_of m string (some i) = some (if m (string + i) == 0 then negsuc 0 else pos i)

unfoldable pub findfirstsprt : ℕ → Bytes → ℕ → ℕ → Option ℤ
findfirstsprt fuel m string separator = first_of m string (first_loop fuel m string separator 0)

abbrev pub cut_at : Bytes → ℕ → Bytes → ℕ → Option ℕ → Option Bytes
cut_at m string out result none = none
cut_at m string out result (some i) = some (memmov m string out result (i + 1))

-- `strcut`; the result lies in a variable of its own.
unfoldable pub strcut : ℕ → Bytes → ℕ → ℕ → Bytes → ℕ → Option Bytes
strcut fuel m string separator out result =
    cut_at m string out result (first_loop fuel m string separator 0)

-- `(*a) > (*b)` between signed characters.
abbrev pub char_gt : ℕ → ℕ → Bool
char_gt a b = ltb ((b + 128) % 256) ((a + 128) % 256)

unfoldable pub strcmpa : Bytes → ℕ → Bytes → ℕ → ℕ → ℤ
strcmpa m a m' b zero = pos 0
strcmpa m a m' b (suc size) =
    let rest = strcmpa m (a + 1) m' (b + 1) size in
    if not (m a == m' b) then (if char_gt (m a) (m' b) then pos 1 else negsuc 0) else rest

-- The inner loop of `strmatch`: how many characters it skips among the `n` left.
unfoldable pub skip : ℕ → Bytes → ℕ → ℕ → ℕ
skip first dest string zero = 0
skip first dest string (suc n) =
    let rest = skip first dest (string + 1) n in if dest string == first then 0 else suc rest

-- `strmatch`'s result; it returns none of its own where the outer loop ends.
pub data MatchResult : Type 0 where
  found : ℕ → MatchResult
  missing : MatchResult
  undefined : MatchResult

abbrev pub says_same : ℤ → Bool
says_same (pos zero) = true
says_same (pos (suc n)) = false
says_same (negsuc n) = false

-- The outer loop, of which each round moves on by at least one character.
unfoldable pub match_loop : ℕ → Bytes → ℕ → Bytes → ℕ → ℕ → ℕ → MatchResult
match_loop zero source source_size dest string size offset = undefined
match_loop (suc fuel) source source_size dest string size offset =
    let skipped = skip (source 0) dest string (size - offset) in
    let rest =
      match_loop fuel source source_size dest (string + skipped + 1) size (offset + skipped + 1) in
    if leb size offset
    then undefined
    else if offset + skipped == size
    then missing
    else if says_same (strcmpa source 0 dest (string + skipped) source_size)
    then found (offset + skipped)
    else rest

abbrev pub match_of : Bytes → Bytes → ℕ → Option ℕ → Option MatchResult
match_of source dest size none = none
match_of source dest size (some source_size) =
    some (match_loop (size + 1) source source_size dest 0 size 0)

unfoldable pub strmatch : ℕ → Bytes → Bytes → ℕ → Option MatchResult
strmatch fuel source dest size = match_of source dest size (strsize fuel source 0)

-- The loop of `strcount`.
unfoldable pub count_loop : ℕ → Bytes → ℕ → ℕ → ℕ → Option ℕ
count_loop zero m start a count = none
count_loop (suc fuel) m start a count =
    let rest = count_loop fuel m (start + 1) a (if m start == a then count + 1 else count) in
    if m start == 0 then some count else rest

unfoldable pub strcount : ℕ → Bytes → ℕ → ℕ → Option ℕ
strcount fuel m string a = count_loop fuel m string a 0
