-- ===== src/Domain/Id.antt =====
-- crates/casegraph-domain/src/id.rs
pub mod Accepts
use Prim.Native.Nat.{Ordering}
use casegraph.Prelude.{ℕ, Bool, not, ◌&&◌, ◌||◌, leb, ◌==◌, all, if◌then◌else◌}
use casegraph.Prelude.Result.{Result, ok, err}
use casegraph.Text.{Text, lit, text_eq, text_cmp}
use casegraph.Text.Ascii.{is_ascii_alphanumeric}
use casegraph.Text.Utf8.{bytes, len}
use casegraph.Domain.Error.{DomainError, domain_error}

pub record RecordId : Type 0 where
  pub value : Text

abbrev pub is_id_byte : ℕ → Bool
is_id_byte b = is_ascii_alphanumeric b || ((b == b'_') || (b == b'-'))

-- `RecordId::parse`.
unfoldable pub parse : Text → Result DomainError RecordId
unfolding len bytes
parse value =
    let valid_length = leb 3 (len value) && leb (len value) 100 in
    let valid_characters = all is_id_byte (bytes value) in
    if not valid_length || not valid_characters
    then err (
        domain_error (lit "id")
          (lit "must be 3-100 ASCII letters, digits, underscores, or hyphens"))
    else ok (record { value = value })

-- `RecordId::as_str`, and `Serialize for RecordId`.
abbrev pub as_str : RecordId → Text
as_str id = id.value

-- The derived `PartialEq` and `Ord`.
abbrev pub id_eq : RecordId → RecordId → Bool
id_eq a b = text_eq a.value b.value

abbrev pub id_cmp : RecordId → RecordId → Ordering
id_cmp a b = text_cmp a.value b.value
