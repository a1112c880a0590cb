-- ===== src/Challenge/Length.antt =====
-- The length of the challenges that `RandomChallengeGenerator` makes.
use webauthn.Prelude.{ℕ, ◌≡◌, sym, false, ◌≤◌, refl, arith, none, Bytes, bytes, length, ap, ◌∙◌}
use webauthn.Prelude.Int.{ℤ, pos, negsuc, pos_part, ltb_ℤ}
use webauthn.Errors.{ok, >>=-eq-ok, refuse_if, refuse_if-eq-ok}
use webauthn.Protocol.Bytes.{Challenge, len, new_challenge, min_challenge_length}
use webauthn.Challenge.{ReadFull, RandomGenerator, default_length, source_of, generate_random}

new_challenge-length :
    (raw : Bytes) {c : Challenge}
    → new_challenge (bytes raw) ≡ ok c
    → (len c ≡ length raw) × (16 ≤ len c)
unfolding new_challenge
new_challenge-length raw h = (ground (arith, h), ground (arith, h))

pos-pos_part : (d : ℤ) → ltb_ℤ d (pos 16) ≡ false → pos (pos_part d) ≡ d
pos-pos_part (pos n) h = refl
pos-pos_part (negsuc n) h = absurd (ground arith)

-- A challenge that is generated has the configured length, or the recommended one where none is
-- configured, and at least 16 bytes, if a read of the reader in use that succeeds is of the length
-- asked for, as `io.ReadFull` documents.
pub generate_random_length :
    (random read : ReadFull) (g : RandomGenerator) {c : Challenge}
    → source_of random g.source ≡ ok read
    → ((n : ℕ) (raw : Bytes) → read n ≡ ok raw → length raw ≡ n)
    → generate_random random none g ≡ ok c
    → (pos (len c) ≡ default_length g.length) × (16 ≤ len c)
unfolding generate_random
generate_random_length random read g source fills h =
    let (_, long, h1) =
      >>=-eq-ok (refuse_if (ltb_ℤ (default_length g.length) (pos min_challenge_length)) _) _ h in
    let (read', found, h2) = >>=-eq-ok (source_of random g.source) _ h1 in
    let (raw, answers, made) = >>=-eq-ok (read' (pos_part (default_length g.length))) _ h2 in
    let (size, least) = new_challenge-length raw made in
    let same : read' ≡ read = ground (arith, found, source) in
    let d = default_length g.length in
    let asked : length raw ≡ pos_part d =
      fills (pos_part d) raw (ap (λ (f : ReadFull). f (pos_part d)) (sym same) ∙ answers) in
    (ap pos (size ∙ asked) ∙ pos-pos_part d (refuse_if-eq-ok _ _ long), least)
