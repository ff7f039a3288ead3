-- ===== src/Application/Service/Checks.antt =====
-- `validate_text` and `validate_filename` of crates/casegraph-application/src/service.rs. Paths are
-- those of Unix: `Path::components` splits at `/` and drops empty parts, and `.` but at the start.
use casegraph.Prelude.{
  ℕ, Bool, true, false, not, ◌&&◌, ◌||◌, ◌++◌, Option, none, some, List, [], ◌∷◌, leb, ◌==◌, any,
  if◌then◌else◌,
}
use casegraph.Prelude.Result.{Result, ok, ◌>>◌, reject_if}
use casegraph.Text.{Text, lit, text_eq, is_empty}
use casegraph.Text.Trim.{trim, count, is_control}
use casegraph.Application.Error.{AppError, app_error, invalid_input}

-- `validate_text`.
unfoldable pub check_text : Text → Text → ℕ → ℕ → Result AppError (Unit {0})
check_text field value min max =
    let length = count (trim value) in
    reject_if (not (leb min length && leb length max) || any is_control value)
      (app_error invalid_input (field ++ lit " is empty, too long, or contains control characters"))

pub data Component : Type 0 where
  root_dir cur_dir parent_dir : Component
  normal : Text → Component

-- The parts of a text between its slashes.
unfoldable pub segments : Text → Text → List Text
segments part [] = part ∷ []
segments part (c ∷ s) =
    let ended = part ∷ segments [] s in
    let longer = segments (part ++ (c ∷ [])) s in if c == b'/' then ended else longer

-- The components of the parts behind the first.
unfoldable pub later_components : List Text → List Component
later_components [] = []
later_components (p ∷ ps) =
    let rest = later_components ps in
    if is_empty p || text_eq p (b'.' ∷ [])
    then rest
    else if text_eq p (b'.' ∷ b'.' ∷ [])
    then parent_dir ∷ rest
    else normal p ∷ rest

unfoldable pub first_components : List Text → List Component
first_components [] = []
first_components (p ∷ ps) =
    if text_eq p (b'.' ∷ []) then cur_dir ∷ later_components ps else later_components (p ∷ ps)

-- `Path::new(filename).components()`.
unfoldable pub components : Text → List Component
components [] = []
components (c ∷ s) =
    if c == b'/'
    then root_dir ∷ later_components (segments [] s)
    else first_components (segments [] (c ∷ s))

abbrev pub single_normal : List Component → Bool
single_normal (normal name ∷ []) = true
single_normal _ = false

abbrev pub is_none {ℓ} : {A : Type ℓ} → Option A → Bool
is_none none = true
is_none (some a) = false

-- `validate_filename`.
unfoldable pub check_filename : Option Text → Result AppError (Unit {0})
check_filename none = ok tt
check_filename (some filename) = do
  check_text (lit "original_filename") filename 1 255
  reject_if (not (single_normal (components filename)))
      (app_error invalid_input (lit "original_filename must not contain a path"))
