-- ===== src/Attestation/Tpm/Reader.antt =====
-- attestation/tpm/structures.go: `tpmReader`, a position in a byte string.
pub mod Facts
pub mod ReadBack
pub mod Steps
pub mod Rebuild
use webauthn.Prelude.{ℕ, ◌+◌, ◌-◌, Bytes, length, slice, ltb, be_uint16, be_uint32, be_uint64}
use webauthn.Errors.{Result, ok, ◌>>=◌, ◌>>◌, refuse_if, sentinel, tpm_truncated, Error}

abbrev pub truncated : Error
truncated = sentinel tpm_truncated

pub record Reader : Type 0 where
  pub buffer : Bytes
  pub pos : ℕ

abbrev pub new_reader : Bytes → Reader
new_reader raw = record { buffer = raw; pos = 0 }

abbrev pub remaining : Reader → ℕ
remaining r = length r.buffer - r.pos

-- `r.pos += k`.
abbrev pub advance : ℕ → Reader → Reader
advance k r = record { buffer = r.buffer; pos = r.pos + k }

-- A read gives its value and the reader behind it.
unfoldable pub read_uint16 : Reader → Result (ℕ × Reader)
read_uint16 r = do
  refuse_if (ltb (remaining r) 2) truncated
  ok (be_uint16 r.buffer r.pos, advance 2 r)

unfoldable pub read_uint32 : Reader → Result (ℕ × Reader)
read_uint32 r = do
  refuse_if (ltb (remaining r) 4) truncated
  ok (be_uint32 r.buffer r.pos, advance 4 r)

unfoldable pub read_uint64 : Reader → Result (ℕ × Reader)
read_uint64 r = do
  refuse_if (ltb (remaining r) 8) truncated
  ok (be_uint64 r.buffer r.pos, advance 8 r)

unfoldable pub sized_bytes : Reader → Result (Bytes × Reader)
sized_bytes r = do
  (size, next) ← read_uint16 r
  refuse_if (ltb (remaining next) size) truncated
  ok (slice next.pos (next.pos + size) next.buffer, advance size next)

unfoldable pub skip : ℕ → Reader → Result Reader
skip count r = do refuse_if (ltb (remaining r) count) truncated; ok (advance count r)
