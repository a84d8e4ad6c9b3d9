-- ===== src/Frame/Wire.antt =====
-- The reading and writing macros of src/format/frame.c, as parsers and writers.
use openquic.Common.{ℕ, ◌-◌, Bool, List, [], ◌∷◌, ◌++◌}
use openquic.Common.{length, take, drop, ltb, if◌then◌else◌, Err, bad_format, internal_error}
use openquic.Varint.{varint_len, varint_r, varint_format_len, varint_bytes}

-- `fault` is undefined behaviour: a read or a write outside of the memory that was given, a read
-- of a field that was never set, or a cast to the struct of another frame. `over_read` is the
-- milder case that a macro reads the one byte behind the buffer, which is undefined too; it would
-- then refuse the input, whatever that byte is.
pub data Result {ℓ} (A : Type ℓ) : Type ℓ where
  ok : A → Result A
  err : Err → Result A
  over_read : Result A
  fault : Result A

-- What lies between `pos` and `last` goes in, and what is left comes out.
abbrev pub Parser : Type 0 → Type 0
Parser A = List ℕ → Result (A × List ℕ)

infixl 5 ◌>>=◌
abbrev pub ◌>>=◌ : {A B : Type 0} → Parser A → (A → Parser B) → Parser B
◌>>=◌ p k bs = elim (p bs) [
  | ok (a, rest) ↦ k a rest
  | err e ↦ err e
  | over_read ↦ over_read
  | fault ↦ fault
]

abbrev pub pure : {A : Type 0} → A → Parser A
pure a bs = ok (a, bs)

-- quic_first_byte, which makes no test.
unfoldable pub first_byte : Parser ℕ
first_byte [] = fault
first_byte (b ∷ bs) = ok (b, bs)

-- quic_varint. At the end of the buffer the macro takes the length from the byte behind it, and
-- then refuses the input, whatever that byte is.
unfoldable pub varint : Parser ℕ
varint [] = over_read
varint (b ∷ bs) =
    if ltb (length (b ∷ bs)) (varint_len b)
    then err bad_format
    else ok (varint_r b bs, drop (varint_len b) (b ∷ bs))

-- A test of `pos + len > last`, and a memcpy of `len` bytes into memory of which `room` are left.
unfoldable pub copy_data : ℕ → ℕ → Parser (List ℕ)
copy_data room len bs =
    if ltb (length bs) len
    then err bad_format
    else if ltb room len
    then fault
    else ok (take len bs, drop len bs)

-- quic_frame_alloc: `granted` tells whether malloc gave memory. `have` and `need` are the 64-bit
-- fields that the allocated struct has, and those that are stored in it.
unfoldable pub alloc : Bool → ℕ → ℕ → Parser (Unit {0})
alloc granted have need bs =
    if granted then (if ltb have need then fault else ok (tt, bs)) else err internal_error

-- quic_buf_t of a writer: the bytes between `buf` and `pos`, and the room up to `last`.
pub record Buf : Type 0 where
  pub out : List ℕ
  pub room : ℕ

pub data Written : Type 0 where
  done : Buf → Written
  failed : Err → Buf → Written
  wild : Written

abbrev pub Writer : Type 0
Writer = Buf → Written

infixl 5 ◌>>◌
abbrev pub ◌>>◌ : Writer → Writer → Writer
◌>>◌ w k b = elim (w b) [ done b' ↦ k b' | failed e b' ↦ failed e b' | wild ↦ wild ]

abbrev pub skip : Writer
skip b = done b

-- Advances `pos` over bytes that were stored there.
abbrev pub push : List ℕ → Buf → Buf
push bs b = record { out = b.out ++ bs; room = b.room - length bs }

-- quic_put_byte, of a `uint8_t`.
unfoldable pub put_byte : ℕ → Writer
put_byte x b = if ltb b.room 1 then failed bad_format b else done (push (x ∷ []) b)

-- quic_put_varint
unfoldable pub put_varint : ℕ → Writer
put_varint v b =
    if ltb b.room (varint_format_len v) then failed bad_format b else done (push (varint_bytes v) b)

-- quic_put_data. Reading more than `src` holds is wild.
unfoldable pub put_data : ℕ → List ℕ → Writer
put_data len src b =
    if ltb b.room len
    then failed bad_format b
    else if ltb (length src) len
    then wild
    else done (push (take len src) b)
