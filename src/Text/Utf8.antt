-- ===== src/Text/Utf8.antt =====
-- UTF-8: the bytes of a text, and slicing by byte positions, which panics inside a character.
pub mod Slices
use casegraph.Prelude.{
  ℕ, ◌+◌, ◌-◌, ◌/◌, ◌%◌, List, [], ◌∷◌, ◌++◌, Option, none, some, ltb, leb, if◌then◌else◌, length,
}
use casegraph.Text.Defs.{Text}

-- The bytes of one scalar value.
unfoldable pub encode : ℕ → List ℕ
encode c =
    if ltb c 0x80
    then c ∷ []
    else if ltb c 0x800
    then (0xC0 + c / 64) ∷ (0x80 + c % 64) ∷ []
    else if ltb c 0x10000
    then (0xE0 + c / 4096) ∷ (0x80 + c / 64 % 64) ∷ (0x80 + c % 64) ∷ []
    else (0xF0 + c / 262144) ∷ (0x80 + c / 4096 % 64) ∷ (0x80 + c / 64 % 64) ∷ (0x80 + c % 64) ∷ []

-- `str::as_bytes`, `str::bytes`.
unfoldable pub bytes : Text → List ℕ
bytes [] = []
bytes (c ∷ s) = encode c ++ bytes s

-- `str::len` counts bytes.
unfoldable pub len : Text → ℕ
unfolding bytes
len s = length (bytes s)

-- The text from byte `k` on: `&s[k..]`. `none` is the panic at a position that is past the end or
-- inside a character.
unfoldable pub slice_from : ℕ → Text → Option Text
slice_from k [] = if leb k 0 then some [] else none
slice_from k (c ∷ s) =
    let width = length (encode c) in
    let rest = slice_from (k - width) s in
    if leb k 0 then some (c ∷ s) else if ltb k width then none else rest

-- The text before byte `k`: `&s[..k]`.
unfoldable pub slice_to : ℕ → Text → Option Text
slice_to k [] = if leb k 0 then some [] else none
slice_to k (c ∷ s) =
    let width = length (encode c) in
    let rest = slice_to (k - width) s in
    if leb k 0
    then some []
    else if ltb k width
    then none
    else elim rest [ none ↦ none | some r ↦ some (c ∷ r) ]
