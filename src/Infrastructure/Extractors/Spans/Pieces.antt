-- ===== src/Infrastructure/Extractors/Spans/Pieces.antt =====
-- What the pieces of a text are to the whole: its lines, a line without its end, a value in it.
use mathlib.Core.Path.{subst}
use casegraph.Prelude.{
  ℕ, ◌+◌, ◌≤◌, ◌≢◌, All, append_nil, append_assoc, Bool, true, false, ◌||◌, ◌≡◌, refl, sym, ap, ◌∙◌,
  Option, none, some, List, [], ◌∷◌, ◌++◌, ◌==◌, ==_iff, length, length-append, arith,
  if◌then◌else◌,
}
use casegraph.Text.{Text, is_empty}
use casegraph.Text.Search.{starts_with, split_once}
use casegraph.Text.Search.Occurs.{starts_with-append, starts_with_self}
use casegraph.Text.Utf8.{bytes, encode, len}
use casegraph.Infrastructure.Extractors.{find, split_inclusive, trim_line_end, prepend}

some_inj : {a b : ℕ} → some a ≡ some b → a ≡ b
some_inj h = cc

len_cons : (c : ℕ) (s : Text) → len (c ∷ s) ≡ length (encode c) + len s
unfolding len bytes
len_cons c s = length-append (encode c) (bytes s)

pub len-append : (s t : Text) → len (s ++ t) ≡ len s + len t
unfolding len bytes
len-append [] t = omega arith
len-append (c ∷ s) t =
    let later = len-append s t in
    let left = len_cons c (s ++ t) in let right = len_cons c s in omega arith

-- Where a text is found.
abbrev pub Found : Text → Text → ℕ → Type 0
Found s value n =
    (before : Text) × (after : Text) × (s ≡ before ++ (value ++ after)) × (n ≡ len before)

find_later :
    (c : ℕ) (s value : Text) (n : ℕ) → Found s value n → Found (c ∷ s) value (length (encode c) + n)
find_later c s value n (before, after, e, k) = (
  c ∷ before,
  after,
  ap (λ t. c ∷ t) e,
  ap (λ m. length (encode c) + m) k ∙ sym (len_cons c before),
)

Found-start : (s value : Text) → starts_with s value ≡ true → Found s value 0
unfolding len bytes
Found-start s value h = let (after, e) = starts_with-append s value h in ([], after, e, refl)

Found-empty :
    (value : Text) (n : ℕ) (b : Bool)
    → starts_with [] value ≡ b
    → (if b then some 0 else none) ≡ some n
    → Found [] value n
Found-empty value n true h e = subst (Found [] value) (some_inj e) (Found-start [] value h)
Found-empty value n false h e = absurd (cc)

Found-cons :
    (c : ℕ) (s value : Text) (n : ℕ) (later : Option ℕ) (b : Bool)
    → starts_with (c ∷ s) value ≡ b
    → ((m : ℕ) → later ≡ some m → Found s value m)
    → (if b then some 0 else elim later [ none ↦ none | some m ↦ some (length (encode c) + m) ])
      ≡ some n
    → Found (c ∷ s) value n
Found-cons c s value n later true h k e =
    subst (Found (c ∷ s) value) (some_inj e) (Found-start (c ∷ s) value h)
Found-cons c s value n (some m) false h k e =
    subst (Found (c ∷ s) value) (some_inj e) (find_later c s value m (k m refl))
Found-cons c s value n none false h k e = absurd (cc)

pub find-Found : (s value : Text) (n : ℕ) → find s value ≡ some n → Found s value n
unfolding find
find-Found [] value n h = Found-empty value n (starts_with [] value) refl h
find-Found (c ∷ s) value n h =
    Found-cons c s value n (find s value) (starts_with (c ∷ s) value) refl
      (λ m e. find-Found s value m e) h

trimmed_by :
    (c : ℕ) (s t ending : Text) (b : Bool)
    → s ≡ t ++ ending
    → (rest : Text) × (c ∷ s ≡ (if is_empty t then (if b then [] else c ∷ []) else c ∷ t) ++ rest)
unfolding is_empty
trimmed_by c s [] ending true e = (c ∷ s, refl)
trimmed_by c s [] ending false e = (s, refl)
trimmed_by c s (x ∷ t) ending b e = (ending, ap (λ rest. c ∷ rest) e)

trimmed_first :
    (c : ℕ) (s ending : Text)
    → s ≡ trim_line_end s ++ ending
    → (rest : Text) × (c ∷ s ≡ trim_line_end (c ∷ s) ++ rest)
trimmed_first c s ending e = trimmed_by c s (trim_line_end s) ending ((c == 13) || (c == 10)) e

pub trim_line_end-append : (s : Text) → (ending : Text) × (s ≡ trim_line_end s ++ ending)
trim_line_end-append [] = ([], refl)
trim_line_end-append (c ∷ s) =
    let (ending, e) = trim_line_end-append s in trimmed_first c s ending e

abbrev pub joined : List Text → Text
joined [] = []
joined (line ∷ lines) = line ++ joined lines

joined-prepend : (c : ℕ) (lines : List Text) → joined (prepend c lines) ≡ c ∷ joined lines
joined-prepend c [] = refl
joined-prepend c (line ∷ lines) = refl

pub joined-split_inclusive : (s : Text) → joined (split_inclusive s) ≡ s
unfolding split_inclusive
joined-split_inclusive [] = refl
joined-split_inclusive (c ∷ s) =
    let later = joined-split_inclusive s in
    let first = joined-prepend c (split_inclusive s) in ground arith

joined-append : (xs ys : List Text) → joined (xs ++ ys) ≡ joined xs ++ joined ys
joined-append [] ys = refl
joined-append (x ∷ xs) ys =
    ap (λ t. x ++ t) (joined-append xs ys) ∙ sym (append_assoc x (joined xs) (joined ys))

pub joined-lines :
    (text line : Text) (earlier later : List Text)
    → split_inclusive text ≡ earlier ++ (line ∷ later)
    → text ≡ joined earlier ++ (line ++ joined later)
joined-lines text line earlier later e =
    sym (joined-split_inclusive text) ∙ (ap joined e ∙ joined-append earlier (line ∷ later))

pub joined_one_more :
    (earlier : List Text) (line : Text) → joined (earlier ++ (line ∷ [])) ≡ joined earlier ++ line
joined_one_more earlier line =
    joined-append earlier (line ∷ []) ∙ ap (λ t. joined earlier ++ t) (sym (append_nil line))

found_at_zero :
    (s value : Text) (n : ℕ) → starts_with s value ≡ true → find s value ≡ some n → n ≡ 0
unfolding find
found_at_zero [] value n h e = ground arith
found_at_zero (c ∷ s) value n h e = ground arith

starts_by : (s value r : Text) → s ≡ value ++ r → starts_with s value ≡ true
starts_by s value r e = subst (λ t. starts_with t value ≡ true) (sym e) (starts_with_self value r)

-- What is found behind the first character.
first_later :
    (c : ℕ) (n bound : ℕ) (later : Option ℕ) (b : Bool)
    → ((m : ℕ) → later ≡ some m → m ≤ bound)
    → (if b then some 0 else elim later [ none ↦ none | some m ↦ some (length (encode c) + m) ])
      ≡ some n
    → n ≤ length (encode c) + bound
first_later c n bound later true k h = let zero_is = some_inj h in omega arith
first_later c n bound (some m) false k h =
    let m_is = some_inj h in let low = k m refl in omega arith
first_later c n bound none false k h = absurd (cc)

parts_next :
    (d c : ℕ) (s a b : Text) (rest : Option (Text × Text)) (here : Bool)
    → (c == d) ≡ here
    → ((a' b' : Text) → rest ≡ some (a', b') → (s ≡ a' ++ (d ∷ b')) × All (λ x. x ≢ d) a')
    → if◌then◌else◌ {A = Option (Text × Text)} here
        (some ([], s))
        (elim rest [ none ↦ none | some (x, y) ↦ some (c ∷ x, y) ])
      ≡ some (a, b)
    → (c ∷ s ≡ a ++ (d ∷ b)) × All (λ x. x ≢ d) a
parts_next d c s a b rest true e k h =
    let parts : ◌≡◌ {A = Text × Text} ([], s) (a, b) = cc in
    subst (λ p. (c ∷ s ≡ p.0 ++ (d ∷ p.1)) × All (λ x. x ≢ d) p.0) parts
      (ap (λ x. x ∷ s) ((==_iff c d).0 e), tt)
parts_next d c s a b (some (x, y)) false e k h =
    let parts : ◌≡◌ {A = Text × Text} (c ∷ x, y) (a, b) = cc in
    let (eq, none_in) = k x y refl in
    subst (λ p. (c ∷ s ≡ p.0 ++ (d ∷ p.1)) × All (λ x. x ≢ d) p.0) parts
      (ap (λ t. c ∷ t) eq, (λ i. let j = (==_iff c d).1 i in absurd (cc), none_in))
parts_next d c s a b none false e k h = absurd (cc)

-- It is found at its first place.
pub find-first :
    (s value : Text) (n : ℕ)
    → find s value ≡ some n
    → (l r : Text) → s ≡ l ++ (value ++ r)
    → n ≤ len l
unfolding find
find-first [] value n h l r e = ground arith
find-first (c ∷ s) value n h [] r e =
    let zero_is = found_at_zero (c ∷ s) value n (starts_by (c ∷ s) value r e) h in omega arith
find-first (c ∷ s) value n h (d ∷ l) r e =
    let same : c ≡ d = cc in
    let rest : s ≡ l ++ (value ++ r) = cc in
    let low =
      first_later c n (len l) (find s value) (starts_with (c ∷ s) value)
        (λ m k. find-first s value m k l r rest) h in
    let width = len_cons d l in let equal = ap (λ x. length (encode x)) same in omega arith

-- The parts around the first such character.
pub split_once-parts :
    (d : ℕ) (s a b : Text) → split_once d s ≡ some (a, b) → (s ≡ a ++ (d ∷ b)) × All (λ c. c ≢ d) a
unfolding split_once
split_once-parts d [] a b h = absurd (cc)
split_once-parts d (c ∷ s) a b h =
    parts_next d c s a b (split_once d s) (c == d) refl (λ x y k. split_once-parts d s x y k) h
