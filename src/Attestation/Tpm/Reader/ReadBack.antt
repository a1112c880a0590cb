-- ===== src/Attestation/Tpm/Reader/ReadBack.antt =====
-- The reads of a `tpmReader` give back what stands next in the byte string.
use webauthn.Prelude.{
  ℕ, zero, suc, ◌+◌, ◌^◌, ◌≤◌, ◌<◌, ◌≡◌, refl, sym, ap, ◌∙◌, arith, Bytes, [], ◌∷◌, ◌++◌, length,
  get_or, take, drop, slice, be_uint16, be_uint32, be_uint64, put_uint16, put_uint32, append_assoc,
  drop-append_self, length-append, take-append, drop-drop,
}
use webauthn.Errors.{Result, ok}
use webauthn.Attestation.Tpm.Reader.{
  Reader, remaining, advance, read_uint16, read_uint32, read_uint64, sized_bytes, skip,
}
use webauthn.Attestation.Tpm.Reader.Facts.{rest, sized, length-rest}

get_or-nil : (k : ℕ) → get_or {A = ℕ} [] k 0 ≡ 0
unfolding get_or
get_or-nil k = refl

get_or-drop : (i : ℕ) (d : Bytes) (j k : ℕ) → k ≡ i + j → get_or d k 0 ≡ get_or (drop i d) j 0
unfolding get_or drop
get_or-drop zero d j k e = rw e (ap (λ (n : ℕ). get_or d n 0) (omega arith))
get_or-drop (suc i) [] j k e = get_or-nil k ∙ sym (get_or-nil j)
get_or-drop (suc i) (x ∷ d) j zero e = absurd (omega arith)
get_or-drop (suc i) (x ∷ d) j (suc k) e = get_or-drop i d j k (omega arith)

drop-rest : (r : Reader) (k : ℕ) → rest (advance k r) ≡ drop k (rest r)
drop-rest r k = sym (drop-drop k r.pos r.buffer ∙ ap (λ (n : ℕ). drop n r.buffer) (omega arith))

at_rest :
    (r : Reader) (j k : ℕ) {t : Bytes}
    → rest r ≡ t
    → k ≡ r.pos + j
    → get_or r.buffer k 0 ≡ get_or t j 0
at_rest r j k e h = get_or-drop r.pos r.buffer j k h ∙ ap (λ (u : Bytes). get_or u j 0) e

-- What a read gives back when the bytes to be read are known.
pub record Gives {A : Type 0} (result : Result (A × Reader)) (a : A) (t : Bytes) : Type 0 where
  pub next : Reader
  pub reads : result ≡ ok (a, next)
  pub left : rest next ≡ t

pub read_uint16-Gives :
    (r : Reader) (n : ℕ) (t : Bytes)
    → n < 2 ^ 16
    → rest r ≡ put_uint16 n ++ t
    → Gives (read_uint16 r) n t
unfolding read_uint16 put_uint16 get_or drop
read_uint16-Gives r n t small e =
    let room : 2 ≤ remaining r =
      omega (arith, length-rest r, ap length e, length-append (put_uint16 n) t) in
    let word : be_uint16 r.buffer r.pos ≡ n =
      omega (arith, at_rest r 0 r.pos e (omega arith), at_rest r 1 (r.pos + 1) e (omega arith)) in
    record {
      next = advance 2 r;
      reads = ground (arith, room, word);
      left = drop-rest r 2 ∙ ap (drop 2) e;
    }

pub read_uint32-Gives :
    (r : Reader) (n : ℕ) (t : Bytes)
    → n < 2 ^ 32
    → rest r ≡ put_uint32 n ++ t
    → Gives (read_uint32 r) n t
unfolding read_uint32 put_uint32 get_or drop
read_uint32-Gives r n t small e =
    let room : 4 ≤ remaining r =
      omega (arith, length-rest r, ap length e, length-append (put_uint32 n) t) in
    let word : be_uint32 r.buffer r.pos ≡ n = omega (
      arith,
      at_rest r 0 r.pos e (omega arith),
      at_rest r 1 (r.pos + 1) e (omega arith),
      at_rest r 2 (r.pos + 2) e (omega arith),
      at_rest r 3 (r.pos + 3) e (omega arith),
    ) in
    record {
      next = advance 4 r;
      reads = ground (arith, room, word);
      left = drop-rest r 4 ∙ ap (drop 4) e;
    }

-- Bytes that are passed over.
pub skip-Gives :
    (r : Reader) (b t : Bytes)
    → rest r ≡ b ++ t
    → (skip (length b) r ≡ ok (advance (length b) r)) × (rest (advance (length b) r) ≡ t)
unfolding skip
skip-Gives r b t e =
    let room : length b ≤ remaining r =
      omega (arith, length-rest r, ap length e, length-append b t) in
    (
      ground (arith, room),
      drop-rest r (length b) ∙ ap (drop (length b)) e ∙ drop-append_self (length b) b t refl,
    )

pub read_uint64-reads :
    (r : Reader) (b t : Bytes)
    → length b ≡ 8
    → rest r ≡ b ++ t
    → Gives (read_uint64 r) (be_uint64 r.buffer r.pos) t
unfolding read_uint64 skip
read_uint64-reads r b t size e =
    let (skips, left) = rw size at (skip-Gives r b t e) in
    record { next = advance 8 r; reads = ground (arith, skips); left = left }

pub sized_bytes-Gives :
    (r : Reader) (b t : Bytes)
    → length b < 2 ^ 16
    → rest r ≡ sized b ++ t
    → Gives (sized_bytes r) b t
unfolding sized_bytes skip
sized_bytes-Gives r b t small e =
    let head =
      read_uint16-Gives r (length b) (b ++ t) small
        (e ∙ append_assoc (put_uint16 (length b)) b t) in
    let (skips, left) = skip-Gives head.next b t head.left in
    let cut : slice head.next.pos (head.next.pos + length b) head.next.buffer ≡ b =
      ap (λ (k : ℕ). take k (rest head.next)) (omega arith)
      ∙ ap (take (length b)) head.left
      ∙ take-append (length b) b t refl in
    record {
      next = advance (length b) head.next;
      reads = rw head.reads (ground (arith, skips, cut));
      left = left;
    }
