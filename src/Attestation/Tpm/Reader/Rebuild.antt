-- ===== src/Attestation/Tpm/Reader/Rebuild.antt =====
-- A parser on a `tpmReader`, run step by step on bytes that are known: each lemma takes the first
-- read off the chain.
use webauthn.Prelude.{
  ℕ, ◌^◌, ◌<◌, ◌≡◌, ap, false, Bool, ◌++◌, Bytes, length, put_uint16, put_uint32,
}
use webauthn.Errors.{Error, Result, ok, ◌>>=◌, ◌>>◌, refuse_if, wrapped}
use webauthn.Attestation.Tpm.Reader.{
  Reader, read_uint16, read_uint32, read_uint64, sized_bytes, skip, advance,
}
use webauthn.Attestation.Tpm.Reader.Facts.{rest, sized}
use webauthn.Attestation.Tpm.Reader.ReadBack.{
  Gives, read_uint16-Gives, read_uint32-Gives, read_uint64-reads, sized_bytes-Gives, skip-Gives,
}

module _ {B : Type 0} {final : Result B} where
  -- A call whose result is known.
  pub call_back :
      {A : Type 0} {a : A} (call : Result A) (more : A → Result B)
      → call ≡ ok a
      → more a ≡ final
      → (call >>= more) ≡ final
  call_back call more e h = rw e h

  pub refuse_back :
      (b : Bool) (e : Error) {more : Result B}
      → b ≡ false
      → more ≡ final
      → (refuse_if b e >> more) ≡ final
  refuse_back b e passes h = rw passes h

  give_back :
      {A : Type 0} {a : A} {t : Bytes} (outer : Error) (call : Result (A × Reader))
      (more : A × Reader → Result B)
      → Gives call a t
      → ((next : Reader) → rest next ≡ t → more (a, next) ≡ final)
      → (wrapped outer call >>= more) ≡ final
  give_back outer call more g h =
      call_back (wrapped outer call) more (ap (wrapped outer) g.reads) (h g.next g.left)

  module _ (outer : Error) (r : Reader) where
    pub uint16_back :
        (more : ℕ × Reader → Result B) (n : ℕ) {t : Bytes}
        → n < 2 ^ 16
        → rest r ≡ put_uint16 n ++ t
        → ((next : Reader) → rest next ≡ t → more (n, next) ≡ final)
        → (wrapped outer (read_uint16 r) >>= more) ≡ final
    uint16_back more n small e h =
        give_back outer (read_uint16 r) more (read_uint16-Gives r n _ small e) h

    pub uint32_back :
        (more : ℕ × Reader → Result B) (n : ℕ) {t : Bytes}
        → n < 2 ^ 32
        → rest r ≡ put_uint32 n ++ t
        → ((next : Reader) → rest next ≡ t → more (n, next) ≡ final)
        → (wrapped outer (read_uint32 r) >>= more) ≡ final
    uint32_back more n small e h =
        give_back outer (read_uint32 r) more (read_uint32-Gives r n _ small e) h

    pub uint64_back :
        (more : ℕ × Reader → Result B) (b : Bytes) {t : Bytes}
        → length b ≡ 8
        → rest r ≡ b ++ t
        → ((n : ℕ) (next : Reader) → rest next ≡ t → more (n, next) ≡ final)
        → (wrapped outer (read_uint64 r) >>= more) ≡ final
    uint64_back more b size e h =
        give_back outer (read_uint64 r) more (read_uint64-reads r b _ size e) (h _)

    pub sized_back :
        (more : Bytes × Reader → Result B) (b : Bytes) {t : Bytes}
        → length b < 2 ^ 16
        → rest r ≡ sized b ++ t
        → ((next : Reader) → rest next ≡ t → more (b, next) ≡ final)
        → (wrapped outer (sized_bytes r) >>= more) ≡ final
    sized_back more b small e h =
        give_back outer (sized_bytes r) more (sized_bytes-Gives r b _ small e) h

    pub skip_back :
        (count : ℕ) (more : Reader → Result B) (b : Bytes) {t : Bytes}
        → length b ≡ count
        → rest r ≡ b ++ t
        → ((next : Reader) → rest next ≡ t → more next ≡ final)
        → (wrapped outer (skip count r) >>= more) ≡ final
    skip_back count more b size e h =
        let (skips, left) = rw size at (skip-Gives r b _ e) in
        call_back (wrapped outer (skip count r)) more (ap (wrapped outer) skips)
          (h (advance count r) left)
