-- ===== src/Text/Decode.antt =====
-- `std::str::from_utf8`: the bytes of a text, read one after the other.
use casegraph.Prelude.{
  ℕ, ◌+◌, ◌-◌, ◌*◌, Bool, true, false, not, ◌&&◌, Option, none, some, List, [], ◌∷◌, ◌++◌, ltb, leb,
  ◌==◌, if◌then◌else◌,
}
use casegraph.Text.Defs.{Text}

-- The characters so far, and of the one that is being read: how many bytes are missing, its bits so
-- far, and the least value that needs so many bytes.
pub record Decoding : Type 0 where
  pub valid : Bool
  pub read : Text
  pub missing : ℕ
  pub bits : ℕ
  pub least : ℕ

abbrev pub invalid : Decoding → Decoding
invalid d = record { valid = false; read = d.read; missing = 0; bits = 0; least = 0 }

abbrev pub begin : Decoding → ℕ → ℕ → ℕ → Decoding
begin d missing bits least = record {
  valid = d.valid;
  read = d.read;
  missing = missing;
  bits = bits;
  least = least;
}

abbrev pub complete : Decoding → ℕ → Decoding
complete d c = record {
  valid = d.valid;
  read = d.read ++ (c ∷ []);
  missing = 0;
  bits = 0;
  least = 0;
}

-- The value is not written with fewer bytes, is no surrogate, and is at most 0x10FFFF.
abbrev pub is_scalar : ℕ → ℕ → Bool
is_scalar least c = leb least c && (leb c 0x10FFFF && not (leb 0xD800 c && leb c 0xDFFF))

abbrev pub first_byte : Decoding → ℕ → Decoding
first_byte d b =
    if ltb b 0x80
    then complete d b
    else if leb 0xC2 b && leb b 0xDF
    then begin d 1 (b - 0xC0) 0x80
    else if leb 0xE0 b && leb b 0xEF
    then begin d 2 (b - 0xE0) 0x800
    else if leb 0xF0 b && leb b 0xF4
    then begin d 3 (b - 0xF0) 0x10000
    else invalid d

abbrev pub later_byte : Decoding → ℕ → Decoding
later_byte d b =
    let bits = d.bits * 64 + (b - 0x80) in
    if not (leb 0x80 b && leb b 0xBF)
    then invalid d
    else if ltb 1 d.missing
    then begin d (d.missing - 1) bits d.least
    else if is_scalar d.least bits
    then complete d bits
    else invalid d

abbrev pub decode_byte : Decoding → ℕ → Decoding
decode_byte d b =
    if not d.valid then d else if d.missing == 0 then first_byte d b else later_byte d b

unfoldable pub decode_from : Decoding → List ℕ → Decoding
decode_from d [] = d
decode_from d (b ∷ bs) = decode_from (decode_byte d b) bs

unfoldable pub from_utf8 : List ℕ → Option Text
unfolding decode_from
from_utf8 bs =
    let start : Decoding = record { valid = true; read = []; missing = 0; bits = 0; least = 0 } in
    let d = decode_from start bs in if d.valid && (d.missing == 0) then some d.read else none
