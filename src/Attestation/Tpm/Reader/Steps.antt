-- ===== src/Attestation/Tpm/Reader/Steps.antt =====
-- A parser on a `tpmReader` that succeeds, read step by step: each lemma takes the first read off
-- the chain and hands on what that read took.
use webauthn.Prelude.{ℕ, ◌^◌, ◌<◌, ◌≡◌, ◌++◌, Bytes, IsByte, All, length, put_uint16, put_uint32}
use webauthn.Errors.{Error, Result, ok, ◌>>=◌, wrapped, >>=-eq-ok, wrapped-eq-ok}
use webauthn.Attestation.Tpm.Reader.{
  Reader, read_uint16, read_uint32, read_uint64, sized_bytes, skip,
}
use webauthn.Attestation.Tpm.Reader.Facts.{
  rest, sized, read_uint16-Takes, read_uint32-Takes, read_uint64-Takes, sized_bytes-Takes,
  skip-Takes, buffer-IsByte,
}

module _ {B : Type 0} {final : B} {C : Type 0} where
  module _ (outer : Error) (r : Reader) (byte : All IsByte r.buffer) where
    pub uint16_step :
        (more : ℕ × Reader → Result B)
        → (wrapped outer (read_uint16 r) >>= more) ≡ ok final
        → ((n : ℕ) (next : Reader)
            → All IsByte next.buffer
            → rest r ≡ put_uint16 n ++ rest next
            → n < 2 ^ 16
            → more (n, next) ≡ ok final
            → C)
        → C
    uint16_step more h continue =
        let ((n, next), e, h') = >>=-eq-ok (wrapped outer (read_uint16 r)) more h in
        let (takes, small) = read_uint16-Takes r byte (wrapped-eq-ok outer (read_uint16 r) e) in
        continue n next (buffer-IsByte takes byte) takes.splits small h'

    pub uint32_step :
        (more : ℕ × Reader → Result B)
        → (wrapped outer (read_uint32 r) >>= more) ≡ ok final
        → ((n : ℕ) (next : Reader)
            → All IsByte next.buffer
            → rest r ≡ put_uint32 n ++ rest next
            → n < 2 ^ 32
            → more (n, next) ≡ ok final
            → C)
        → C
    uint32_step more h continue =
        let ((n, next), e, h') = >>=-eq-ok (wrapped outer (read_uint32 r)) more h in
        let (takes, small) = read_uint32-Takes r byte (wrapped-eq-ok outer (read_uint32 r) e) in
        continue n next (buffer-IsByte takes byte) takes.splits small h'

    pub uint64_step :
        (more : ℕ × Reader → Result B)
        → (wrapped outer (read_uint64 r) >>= more) ≡ ok final
        → ((n : ℕ) (b : Bytes) (next : Reader)
            → All IsByte next.buffer
            → rest r ≡ b ++ rest next
            → length b ≡ 8
            → more (n, next) ≡ ok final
            → C)
        → C
    uint64_step more h continue =
        let ((n, next), e, h') = >>=-eq-ok (wrapped outer (read_uint64 r)) more h in
        let (b, takes, size) = read_uint64-Takes r (wrapped-eq-ok outer (read_uint64 r) e) in
        continue n b next (buffer-IsByte takes byte) takes.splits size h'

    pub skip_step :
        (count : ℕ) (more : Reader → Result B)
        → (wrapped outer (skip count r) >>= more) ≡ ok final
        → ((b : Bytes) (next : Reader)
            → All IsByte next.buffer
            → rest r ≡ b ++ rest next
            → length b ≡ count
            → more next ≡ ok final
            → C)
        → C
    skip_step count more h continue =
        let (next, e, h') = >>=-eq-ok (wrapped outer (skip count r)) more h in
        let (b, takes, size) = skip-Takes count r (wrapped-eq-ok outer (skip count r) e) in
        continue b next (buffer-IsByte takes byte) takes.splits size h'

    pub sized_step :
        (more : Bytes × Reader → Result B)
        → (wrapped outer (sized_bytes r) >>= more) ≡ ok final
        → ((b : Bytes) (next : Reader)
            → All IsByte next.buffer
            → rest r ≡ sized b ++ rest next
            → length b < 2 ^ 16
            → more (b, next) ≡ ok final
            → C)
        → C
    sized_step more h continue =
        let ((b, next), e, h') = >>=-eq-ok (wrapped outer (sized_bytes r)) more h in
        let (takes, small) = sized_bytes-Takes r byte (wrapped-eq-ok outer (sized_bytes r) e) in
        continue b next (buffer-IsByte takes byte) takes.splits small h'
