-- ===== src/Attestation/Tpm/Reader/Facts.antt =====
-- What each read of a `tpmReader` takes, and what it reads back.
use webauthn.Prelude.{
  ℕ, suc, ◌+◌, ◌-◌, ◌^◌, ◌≤◌, ◌<◌, ◌≡◌, refl, sym, ap, ◌∙◌, arith, Bytes, IsByte, [], ◌∷◌, ◌++◌,
  length, get_or, take, drop, slice, All, be_uint16, be_uint32, put_uint16, put_uint32,
  put_uint16-be_uint16, put_uint32-be_uint32, get_or-IsByte, take-append-drop, append_assoc,
  drop-get_or, length-take, length-drop, drop-drop,
}
use webauthn.Errors.{ok, >>=-eq-ok}
use webauthn.Attestation.Tpm.Reader.{
  Reader, remaining, advance, read_uint16, read_uint32, read_uint64, sized_bytes, skip,
}

-- What is still to be read.
abbrev pub rest : Reader → Bytes
rest r = drop r.pos r.buffer

-- The form of sized bytes.
abbrev pub sized : Bytes → Bytes
sized b = put_uint16 (length b) ++ b

-- A read that takes the bytes `b`.
pub record Takes (r : Reader) (b : Bytes) (next : Reader) : Type 0 where
  pub same : next.buffer ≡ r.buffer
  pub splits : rest r ≡ b ++ rest next

pub take-rest : (r : Reader) (k : ℕ) → Takes r (take k (rest r)) (advance k r)
take-rest r k = record {
  same = refl;
  splits =
      sym (take-append-drop k (rest r))
      ∙ ap (λ (t : Bytes). take k (rest r) ++ t)
          (drop-drop k r.pos r.buffer ∙ ap (λ (n : ℕ). drop n r.buffer) (omega arith));
}

nothing_left : (b : Bytes) → length b ≡ 0 → b ≡ []
nothing_left [] h = refl
nothing_left (x ∷ b) h = absurd (omega arith)

pub length-rest : (r : Reader) → length (rest r) ≡ remaining r
length-rest r = length-drop r.pos r.buffer

drop_at : (d : Bytes) (i j : ℕ) → j ≡ suc i → i < length d → drop i d ≡ get_or d i 0 ∷ drop j d
drop_at d i j e h = rw e (drop-get_or i d 0 h)

split_uint16 :
    (d : Bytes) (i : ℕ)
    → All IsByte d
    → 2 ≤ length d - i
    → drop i d ≡ put_uint16 (be_uint16 d i) ++ drop (i + 2) d
split_uint16 d i byte h = rw (put_uint16-be_uint16 d i byte) (
    drop_at d i (i + 1) (omega arith) (omega arith)
    ∙ ap (◌∷◌ (get_or d i 0)) (drop_at d (i + 1) (i + 2) (omega arith) (omega arith)))

split_uint32 :
    (d : Bytes) (i : ℕ)
    → All IsByte d
    → 4 ≤ length d - i
    → drop i d ≡ put_uint32 (be_uint32 d i) ++ drop (i + 4) d
split_uint32 d i byte h = rw (put_uint32-be_uint32 d i byte) (
    drop_at d i (i + 1) (omega arith) (omega arith)
    ∙ ap (◌∷◌ (get_or d i 0)) (
        drop_at d (i + 1) (i + 2) (omega arith) (omega arith)
        ∙ ap (◌∷◌ (get_or d (i + 1) 0)) (
            drop_at d (i + 2) (i + 3) (omega arith) (omega arith)
            ∙ ap (◌∷◌ (get_or d (i + 2) 0))
                (drop_at d (i + 3) (i + 4) (omega arith) (omega arith)))))

be_uint16_max : (d : Bytes) (i : ℕ) → All IsByte d → be_uint16 d i < 2 ^ 16
be_uint16_max d i byte = omega (arith, get_or-IsByte i d byte, get_or-IsByte (i + 1) d byte)

be_uint32_max : (d : Bytes) (i : ℕ) → All IsByte d → be_uint32 d i < 2 ^ 32
be_uint32_max d i byte = omega (
  arith,
  get_or-IsByte i d byte,
  get_or-IsByte (i + 1) d byte,
  get_or-IsByte (i + 2) d byte,
  get_or-IsByte (i + 3) d byte,
)

-- The buffer stays, and its bytes are bytes.
pub buffer-IsByte :
    {r next : Reader} {b : Bytes} → Takes r b next → All IsByte r.buffer → All IsByte next.buffer
buffer-IsByte takes byte = rw takes.same byte

-- A reader at its end has nothing left.
pub rest-end : (r : Reader) → remaining r ≡ 0 → rest r ≡ []
rest-end r h = nothing_left (rest r) (length-rest r ∙ h)

pub remaining-end : (r : Reader) → rest r ≡ [] → remaining r ≡ 0
remaining-end r h = sym (length-rest r) ∙ ap length h

-- A 16-bit word that is read is the next two bytes.
pub read_uint16-Takes :
    (r : Reader) {n : ℕ} {next : Reader}
    → All IsByte r.buffer
    → read_uint16 r ≡ ok (n, next)
    → Takes r (put_uint16 n) next × (n < 2 ^ 16)
unfolding read_uint16
read_uint16-Takes r {n} {next} byte h =
    let room : 2 ≤ remaining r = ground arith in
    let n_eq : n ≡ be_uint16 r.buffer r.pos = ground arith in
    let next_eq : next ≡ advance 2 r = ground arith in
    rw (n_eq, next_eq)
      (
        record { same = refl; splits = split_uint16 r.buffer r.pos byte room },
        be_uint16_max r.buffer r.pos byte,
      )

pub read_uint32-Takes :
    (r : Reader) {n : ℕ} {next : Reader}
    → All IsByte r.buffer
    → read_uint32 r ≡ ok (n, next)
    → Takes r (put_uint32 n) next × (n < 2 ^ 32)
unfolding read_uint32
read_uint32-Takes r {n} {next} byte h =
    let room : 4 ≤ remaining r = ground arith in
    let n_eq : n ≡ be_uint32 r.buffer r.pos = ground arith in
    let next_eq : next ≡ advance 4 r = ground arith in
    rw (n_eq, next_eq)
      (
        record { same = refl; splits = split_uint32 r.buffer r.pos byte room },
        be_uint32_max r.buffer r.pos byte,
      )

-- A read that only passes over bytes.
pub skip-Takes :
    (count : ℕ) (r : Reader) {next : Reader}
    → skip count r ≡ ok next
    → (b : Bytes) × Takes r b next × (length b ≡ count)
unfolding skip
skip-Takes count r {next} h =
    let room : count ≤ remaining r = ground arith in
    let next_eq : next ≡ advance count r = ground arith in
    rw next_eq (
      take count (rest r),
      take-rest r count,
      omega (arith, length-take count (rest r), length-rest r),
    )

pub read_uint64-Takes :
    (r : Reader) {n : ℕ} {next : Reader}
    → read_uint64 r ≡ ok (n, next)
    → (b : Bytes) × Takes r b next × (length b ≡ 8)
unfolding read_uint64 skip
read_uint64-Takes r {n} {next} h = skip-Takes 8 r (ground arith)

-- Sized bytes that are read are their length and the bytes.
pub sized_bytes-Takes :
    (r : Reader) {b : Bytes} {next : Reader}
    → All IsByte r.buffer
    → sized_bytes r ≡ ok (b, next)
    → Takes r (sized b) next × (length b < 2 ^ 16)
unfolding sized_bytes
sized_bytes-Takes r {b} {next} byte h =
    let ((n, mid), e, h1) = >>=-eq-ok (read_uint16 r) _ h in
    let (head, small) = read_uint16-Takes r byte e in
    let room : n ≤ remaining mid = ground arith in
    let b_eq : b ≡ slice mid.pos (mid.pos + n) mid.buffer = ground arith in
    let next_eq : next ≡ advance n mid = ground arith in
    let size : length b ≡ n =
      rw b_eq (omega (arith, length-take (mid.pos + n - mid.pos) (rest mid), length-rest mid)) in
    let cut : slice mid.pos (mid.pos + n) mid.buffer ≡ take n (rest mid) =
      ap (λ (k : ℕ). take k (rest mid)) (omega arith) in
    (
      record {
        same = rw next_eq head.same;
        splits =
            rw (size, b_eq, cut, next_eq, head.splits)
              (ap (λ (t : Bytes). put_uint16 n ++ t) (take-rest mid n).splits
                ∙ sym (append_assoc (put_uint16 n) (take n (rest mid)) _));
      },
      rw size small,
    )
