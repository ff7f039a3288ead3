-- ===== src/Text/Search.antt =====
-- `str::contains`, `split_once`, `strip_prefix`, `replace`, `starts_with`, `join`.
pub mod Occurs
use casegraph.Prelude.{
  ℕ, Bool, true, false, List, [], ◌∷◌, ◌++◌, ◌&&◌, ◌||◌, Option, none, some, ◌==◌, if◌then◌else◌,
}
use casegraph.Text.Defs.{Text}

unfoldable pub starts_with : Text → Text → Bool
starts_with s [] = true
starts_with [] (p ∷ ps) = false
starts_with (c ∷ s) (p ∷ ps) = (c == p) && starts_with s ps

-- `haystack.contains(needle)`.
unfoldable pub contains : Text → Text → Bool
unfolding starts_with
contains [] needle = starts_with [] needle
contains (c ∷ s) needle = starts_with (c ∷ s) needle || contains s needle

-- `split_once(c)`: the texts before and after the first `c`.
unfoldable pub split_once : ℕ → Text → Option (Text × Text)
split_once d [] = none
split_once d (c ∷ s) =
    let rest = split_once d s in
    if c == d then some ([], s) else elim rest [ none ↦ none | some (a, b) ↦ some (c ∷ a, b) ]

-- `strip_prefix(c)`.
unfoldable pub strip_prefix : ℕ → Text → Option Text
strip_prefix d [] = none
strip_prefix d (c ∷ s) = if c == d then some s else none

-- `replace(c, "")`.
unfoldable pub remove_all : ℕ → Text → Text
remove_all d [] = []
remove_all d (c ∷ s) = let rest = remove_all d s in if c == d then rest else c ∷ rest

-- `[Text]::join(sep)`.
unfoldable pub join : Text → List Text → Text
join sep [] = []
join sep (a ∷ []) = a
join sep (a ∷ b ∷ l) = a ++ (sep ++ join sep (b ∷ l))
