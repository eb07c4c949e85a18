-- ===== src/Types/Unmangle.antt =====
-- src/mangling.cpp: unmangle and what it calls. What is left to read is a list with the terminator of
-- the string at its end; a read past that is `none`.
pub mod Shown
pub mod Lengths
pub mod Readable
pub mod Restored
use eddic.Prelude.{
  ℕ, zero, suc, ◌+◌, ◌-◌, ◌%◌, Bool, true, false, Option, none, some, List, [], ◌∷◌, ◌++◌, ◌==◌,
  length, ltb, if◌then◌else◌, ◌>>=◌,
}
use eddic.Types.{Name}
use eddic.Types.Decimal.{span_digits, to_number}

unfoldable pub read_length : List ℕ → Option (ℕ × List ℕ)
read_length mangled =
    let (digits, rest) = span_digits mangled in do n ← to_number digits; some (n, rest)

-- the loop of get_name_from_length
unfoldable pub read_name : ℕ → List ℕ → Option (Name × List ℕ)
read_name zero rest = some ([], rest)
read_name (suc l) [] = none
read_name (suc l) (c ∷ rest) = do (name, left) ← read_name l rest; some (c ∷ name, left)

-- an optional letter, and whether it was there
abbrev pub flag : ℕ → List ℕ → Bool × List ℕ
flag letter [] = (false, [])
flag letter (c ∷ rest) = if c == letter then (true, rest) else (false, c ∷ rest)

abbrev pub first : List ℕ → Option (ℕ × List ℕ)
first [] = none
first (c ∷ rest) = some (c, rest)

abbrev pub comma : List ℕ
comma = b',' ∷ b' ' ∷ []

-- the loop over the arguments of a template
unfoldable pub extract_params :
    (List ℕ → Option (Name × List ℕ)) → ℕ → List ℕ → Option (Name × List ℕ)
extract_params extract zero rest = some ([], rest)
extract_params extract (suc params) rest = do
  (t, r) ← extract rest
  (ts, left) ← extract_params extract params r
  some (t ++ ((if params == 0 then [] else comma) ++ ts), left)

-- The length of the string with its terminator.
module _ (size : ℕ) where
  -- The position `i` of the source, where what is left starts, is an unsigned int; `start + l` wraps.
  unfoldable pub get_name_from_length : List ℕ → Option (Name × List ℕ)
  unfolding read_length read_name
  get_name_from_length mangled = do
    (l, rest) ← read_length mangled
    (let start = size - length rest in
        let stop = (start + l) % 0x1_0000_0000 in read_name (stop - start) rest)

  unfoldable pub template_name : (List ℕ → Option (Name × List ℕ)) → List ℕ → Option (Name × List ℕ)
  unfolding get_name_from_length read_length extract_params
  template_name extract rest = do
    (name, r) ← get_name_from_length rest
    (params, r') ← read_length r
    (ts, left) ← extract_params extract params r'
    some (name ++ b'<' ∷ (ts ++ b'>' ∷ []), left)

  -- the tests of the letter
  unfoldable pub extract_letter :
      (List ℕ → Option (Name × List ℕ)) → ℕ → List ℕ → Option (Name × List ℕ)
  unfolding get_name_from_length template_name
  extract_letter extract current rest =
      if current == b'I'
      then some (b'i' ∷ b'n' ∷ b't' ∷ [], rest)
      else if current == b'C'
      then some (b'c' ∷ b'h' ∷ b'a' ∷ b'r' ∷ [], rest)
      else if current == b'S'
      then some (b's' ∷ b't' ∷ b'r' ∷ [], rest)
      else if current == b'B'
      then some (b'b' ∷ b'o' ∷ b'o' ∷ b'l' ∷ [], rest)
      else if current == b'F'
      then some (b'f' ∷ b'l' ∷ b'o' ∷ b'a' ∷ b't' ∷ [], rest)
      else if current == b'U'
      then get_name_from_length rest
      else if current == b'T'
      then template_name extract rest
      else some ([], rest)

  -- extract_type, on fuel for the arguments of templates
  unfoldable pub extract_type : ℕ → List ℕ → Option (Name × List ℕ)
  unfolding extract_letter
  extract_type zero mangled = none
  extract_type (suc fuel) mangled =
      let (array, r) = flag b'A' mangled in
      let (pointer, r') = flag b'P' r in
      do
        (current, rest) ← first r'
        (name, left) ← extract_letter (λ r. extract_type fuel r) current rest
        some (
          name ++ ((if array then b'[' ∷ b']' ∷ [] else []) ++ (if pointer then b'&' ∷ [] else [])),
          left,
        )

  -- while(o < mangled.length()), on fuel: each round reads a character
  unfoldable pub unmangle_loop : ℕ → ℕ → List ℕ → Option Name
  unfolding extract_type
  unmangle_loop depth zero rest = if ltb 1 (length rest) then none else some []
  unmangle_loop depth (suc fuel) rest =
      let more = do
        (t, r) ← extract_type depth rest
        ts ← unmangle_loop depth fuel r
        some (t ++ ((if ltb 2 (length r) then comma else []) ++ ts))
      in if ltb 1 (length rest) then more else some []

  unfoldable pub member_prefix : ℕ → ℕ → ℕ → List ℕ → Option (Name × List ℕ)
  unfolding extract_type
  member_prefix depth c d rest =
      let member = do (type, r) ← extract_type depth rest; some (type ++ b':' ∷ b':' ∷ [], r)
      in if c == b'_' then if d == b'M' then member else some ([], rest) else some ([], rest)

  unfoldable pub unmangle_chars : ℕ → List ℕ → Option Name
  unfolding get_name_from_length unmangle_loop member_prefix
  unmangle_chars fuel (c ∷ d ∷ chars) = do
    (struct_type, r) ← member_prefix fuel c d chars
    (name, r') ← get_name_from_length r
    types ← unmangle_loop fuel fuel r'
    some (struct_type ++ (name ++ b'(' ∷ (types ++ b')' ∷ [])))
  unmangle_chars fuel _ = none

-- The fuel is the length: every call of extract_type reads a letter. A name of 2 ^ 32 - 1 bytes or more,
-- over whose end the position would wrap, is none.
unfoldable pub unmangle : Name → Option Name
unfolding unmangle_chars
unmangle mangled =
    let read = unmangle_chars (suc (length mangled)) (length mangled) (mangled ++ 0 ∷ []) in
    if ltb (length mangled) 0xffff_ffff then read else none
