-- ===== src/Domain/Id/Accepts.antt =====
-- What `RecordId::parse` of crates/casegraph-domain/src/id.rs accepts.
use casegraph.Prelude.{
  ℕ, ◌+◌, ◌≤◌, ◌≡◌, refl, ◌↔◌, ◌⊎◌, true, ◌&&◌, List, [], ◌∷◌, ◌++◌, arith, length, all, All,
}
use casegraph.Prelude.Result.{ok}
use casegraph.Text.{Text}
use casegraph.Text.Utf8.{encode, bytes, len}
use casegraph.Domain.Id.{RecordId, is_id_byte, parse}

-- A letter, a digit, an underscore or a hyphen of ASCII.
abbrev pub IsIdChar : ℕ → Type 0
IsIdChar c =
    ((b'0' ≤ c) × (c ≤ b'9'))
    ⊎ (((b'A' ≤ c) × (c ≤ b'Z')) ⊎ (((b'a' ≤ c) × (c ≤ b'z')) ⊎ ((c ≡ b'_') ⊎ (c ≡ b'-'))))

-- A text of 3 to 100 such characters.
pub record IsId (s : Text) : Type 0 where
  pub long_enough : 3 ≤ length s
  pub short_enough : length s ≤ 100
  pub characters : All IsIdChar s

-- The bytes of a character above ASCII are no identifier bytes.
all-encode :
    (c : ℕ) (rest : List ℕ)
    → all is_id_byte (encode c ++ rest) ≡ (is_id_byte c && all is_id_byte rest)
unfolding encode
all-encode c rest = ground arith

length-encode :
    (c : ℕ) (rest : List ℕ) → is_id_byte c ≡ true → length (encode c ++ rest) ≡ length rest + 1
unfolding encode
length-encode c rest h = ground arith

id_char : (c : ℕ) → (is_id_byte c ≡ true) ↔ IsIdChar c
id_char c = (λ h. ground arith, λ h. ground arith)

all-bytes : (s : Text) → (all is_id_byte (bytes s) ≡ true) ↔ All IsIdChar s
unfolding bytes
all-bytes [] = (λ h. tt, λ h. refl)
all-bytes (c ∷ s) = (
  λ h. ground (arith, all-encode c (bytes s), all-bytes s, id_char c),
  λ h. ground (arith, all-encode c (bytes s), all-bytes s, id_char c),
)

len-eq-length : (s : Text) → All IsIdChar s → len s ≡ length s
unfolding len
len-eq-length [] h = refl
len-eq-length (c ∷ s) h =
    omega (arith, length-encode c (bytes s) ((id_char c).1 h.0), len-eq-length s h.1)

-- `parse` accepts exactly the texts of 3 to 100 characters, each an ASCII letter, digit, underscore
-- or hyphen, and returns the text itself as the identifier. Its tests on the length and on the
-- characters are on UTF-8 bytes.
pub parse-IsId : (s : Text) (id : RecordId) → (parse s ≡ ok id) ↔ (IsId s × (id.value ≡ s))
unfolding parse
parse-IsId s id = (
  λ h. sound h,
  λ h. ground (arith, (all-bytes s).1 h.0.characters, len-eq-length s h.0.characters),
)
  where
    sound : parse s ≡ ok id → IsId s × (id.value ≡ s)
    sound h =
        let chars : All IsIdChar s = (all-bytes s).0 (ground arith) in
        let size = len-eq-length s chars in
        (
          record { long_enough = ground arith; short_enough = ground arith; characters = chars },
          ground arith,
        )
