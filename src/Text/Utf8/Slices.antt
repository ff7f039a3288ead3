-- ===== src/Text/Utf8/Slices.antt =====
-- Slicing at the position of an ASCII byte never panics: such a byte is a whole character.
use casegraph.Prelude.{
  ℕ, zero, suc, ◌+◌, ◌-◌, ◌≤◌, ◌<◌, ◌≡◌, refl, ap, sym, ◌∙◌, List, [], ◌∷◌, ◌++◌, none, some, arith,
  length, length-append, get_elem?, All, inl, inr, ◌⊎◌,
}
use native.Mathlib.Decide.{dec_lt}
use casegraph.Text.Defs.{Text}
use casegraph.Text.Utf8.{encode, bytes, len, slice_from, slice_to}

pub encode-ascii : (c : ℕ) → c < 128 → encode c ≡ c ∷ []
unfolding encode
encode-ascii c h = ground arith

encode-high : (c : ℕ) → 128 ≤ c → All (λ b. 128 ≤ b) (encode c)
unfolding encode
encode-high c h = ground arith

encode-pos : (c : ℕ) → 1 ≤ length (encode c)
unfolding encode
encode-pos c = ground arith

get_elem?-append : (xs ys : List ℕ) (j : ℕ) → get_elem? (xs ++ ys) (length xs + j) ≡ get_elem? ys j
get_elem?-append [] ys j = ap (get_elem? ys) (omega arith)
get_elem?-append (x ∷ xs) ys j =
    let e : suc (length xs) + j ≡ suc (length xs + j) = omega arith in
    rw e (get_elem?-append xs ys j)

-- The first bytes of `xs` are no ASCII, so an ASCII byte of `xs ++ ys` is one of `ys`.
pub record Found (xs ys : List ℕ) (k b : ℕ) : Type 0 where
  pub index : ℕ
  pub shift : k ≡ length xs + index
  pub here : get_elem? ys index ≡ some b

skip_high :
    (xs ys : List ℕ) (k b : ℕ)
    → All (λ x. 128 ≤ x) xs
    → get_elem? (xs ++ ys) k ≡ some b
    → b < 128
    → Found xs ys k b
skip_high [] ys k b h e lt = record { index = k; shift = omega arith; here = e }
skip_high (x ∷ xs) ys zero b h e lt = absurd (ground arith)
skip_high (x ∷ xs) ys (suc k) b h e lt =
    let f = skip_high xs ys k b h.1 e lt in
    record { index = f.index; shift = ap suc f.shift ∙ omega arith; here = f.here }

pub slice_from-zero : (s : Text) → slice_from 0 s ≡ some s
unfolding slice_from
slice_from-zero [] = refl
slice_from-zero (c ∷ s) = refl

-- What lies past the first character, by its width.
slice_from-skip :
    (c k : ℕ) (s : Text)
    → length (encode c) ≤ k
    → slice_from k (c ∷ s) ≡ slice_from (k - length (encode c)) s
unfolding slice_from
slice_from-skip c k s h = ground (arith, encode-pos c)

slice_to-skip :
    (c k : ℕ) (s : Text)
    → length (encode c) ≤ k
    → slice_to k (c ∷ s)
      ≡ elim (slice_to (k - length (encode c)) s) [ none ↦ none | some r ↦ some (c ∷ r) ]
unfolding slice_to
slice_to-skip c k s h = ground (arith, encode-pos c)

-- The text from a position that is no panic.
pub record From (s : Text) (k : ℕ) : Type 0 where
  pub rest : Text
  pub slices : slice_from k s ≡ some rest
  pub size : len rest + k ≡ len s
  pub bytes_from : (i : ℕ) → get_elem? (bytes rest) i ≡ get_elem? (bytes s) (k + i)

pub all_of : (s : Text) → From s 0
all_of s = record {
  rest = s;
  slices = slice_from-zero s;
  size = omega arith;
  bytes_from = λ i. ap (get_elem? (bytes s)) (omega arith);
}

-- A position past the first character is one in the text behind it.
past : (c j k : ℕ) (s : Text) → k ≡ length (encode c) + j → From s j → From (c ∷ s) k
unfolding len
past c j k s e f = record {
  rest = f.rest;
  slices =
      slice_from-skip c k s (omega (arith, e))
      ∙ (ap (λ i. slice_from i s) (omega (arith, e)) ∙ f.slices);
  size = omega (arith, f.size, length-append (encode c) (bytes s), e);
  bytes_from = λ i.
      f.bytes_from i
      ∙ (sym (get_elem?-append (encode c) (bytes s) (j + i))
          ∙ ap (get_elem? (encode c ++ bytes s)) (omega (arith, e)));
}

low_byte :
    (c : ℕ) (s : Text) (k b : ℕ)
    → c < 128
    → get_elem? (c ∷ bytes s) k ≡ some b
    → (k ≡ 0) ⊎ Found (encode c) (bytes s) k b
low_byte c s zero b low e = inl refl
low_byte c s (suc k) b low e =
    inr (record { index = k; shift = rw (encode-ascii c low) (omega arith); here = e })

-- An ASCII byte is the first character, or a byte of the text behind it.
ascii_byte :
    (c : ℕ) (s : Text) (k b : ℕ)
    → get_elem? (bytes (c ∷ s)) k ≡ some b
    → b < 128
    → ((k ≡ 0) × (c < 128)) ⊎ Found (encode c) (bytes s) k b
unfolding bytes
ascii_byte c s k b e lt = elim (dec_lt c 128) [
  | no high ↦ inr (skip_high (encode c) (bytes s) k b (encode-high c (omega arith)) e lt)
  | yes low ↦ first (low_byte c s k b low (rw (encode-ascii c low) at e)) low
]
  where
    first :
        (k ≡ 0) ⊎ Found (encode c) (bytes s) k b
        → c < 128
        → ((k ≡ 0) × (c < 128)) ⊎ Found (encode c) (bytes s) k b
    first (inl z) low = inl (z, low)
    first (inr f) low = inr f

-- At an ASCII byte a character begins, and the next one begins right behind it.
pub From-ascii : (s : Text) (k b : ℕ) → get_elem? (bytes s) k ≡ some b → b < 128 → From s (suc k)
unfolding bytes
From-ascii [] k b e lt = absurd (cc)
From-ascii (c ∷ s) k b e lt = go (λ j h. From-ascii s j b h lt) (ascii_byte c s k b e lt)
  where
    go :
        ((j : ℕ) → get_elem? (bytes s) j ≡ some b → From s (suc j))
        → ((k ≡ 0) × (c < 128)) ⊎ Found (encode c) (bytes s) k b
        → From (c ∷ s) (suc k)
    go ih (inl (z, low)) = past c 0 (suc k) s (rw (encode-ascii c low) (omega arith)) (all_of s)
    go ih (inr f) = past c (suc f.index) (suc k) s (omega (arith, f.shift)) (ih f.index f.here)

pub to_ascii :
    (s : Text) (k b : ℕ)
    → get_elem? (bytes s) k ≡ some b
    → b < 128
    → (r : Text) × (slice_to k s ≡ some r)
unfolding bytes
to_ascii [] k b e lt = absurd (cc)
to_ascii (c ∷ s) k b e lt = go (λ j h. to_ascii s j b h lt) (ascii_byte c s k b e lt)
  where
    go :
        ((j : ℕ) → get_elem? (bytes s) j ≡ some b → (r : Text) × (slice_to j s ≡ some r))
        → ((k ≡ 0) × (c < 128)) ⊎ Found (encode c) (bytes s) k b
        → (r : Text) × (slice_to k (c ∷ s) ≡ some r)
    go ih (inl (z, low)) = ([], rw z (unfold slice_to in refl))
    go ih (inr f) =
        let (r, h) = ih f.index f.here in
        let e : k - length (encode c) ≡ f.index = omega (arith, f.shift) in
        (c ∷ r, slice_to-skip c k s (omega (arith, f.shift)) ∙ rw e (rw h))

pub to_end : (s : Text) → slice_to (len s) s ≡ some s
unfolding len bytes
to_end [] = unfold slice_to in refl
to_end (c ∷ s) =
    let size = length-append (encode c) (bytes s) in
    let e : length (encode c ++ bytes s) - length (encode c) ≡ len s = omega (arith, size) in
    slice_to-skip c (length (encode c ++ bytes s)) s (omega (arith, size)) ∙ rw e (rw (to_end s))

-- A text of ASCII characters is its own encoding.
pub bytes-ascii : (s : Text) → All (λ c. c < 128) s → bytes s ≡ s
unfolding bytes
bytes-ascii [] h = refl
bytes-ascii (c ∷ s) h = rw (encode-ascii c h.0) (ap (λ (t : Text). c ∷ t) (bytes-ascii s h.1))

pub slice_from-drop :
    (k : ℕ) (s t : Text) → All (λ c. c < 128) s → k ≡ length s → slice_from k (s ++ t) ≡ some t
slice_from-drop k [] t h e = rw e (slice_from-zero t)
slice_from-drop k (c ∷ s) t h e =
    slice_from-skip c k (s ++ t) (rw (encode-ascii c h.0) (omega (arith, e)))
    ∙ rw (encode-ascii c h.0) (slice_from-drop (k - 1) s t h.1 (omega (arith, e)))

pub slice_to-take :
    (k : ℕ) (s t : Text) → All (λ c. c < 128) s → k ≡ length s → slice_to k (s ++ t) ≡ some s
unfolding slice_to
slice_to-take k [] [] h e = rw e
slice_to-take k [] (c ∷ t) h e = rw e
slice_to-take k (c ∷ s) t h e = ground (arith, encode-ascii c h.0, slice_to-take (k - 1) s t h.1)
