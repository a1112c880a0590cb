-- ===== src/Challenge.antt =====
-- registration_start.go: challenge generators.
pub mod Length
use webauthn.Prelude.{ℕ, Option, none, some, Bytes, bytes, ◌==◌, if◌then◌else◌}
use webauthn.Prelude.Int.{ℤ, pos, ltb_ℤ, eq_ℤ, pos_part}
use webauthn.Errors.{
  Error, Result, ok, err, ◌>>=◌, ◌>>◌, refuse_if, message, byte_length_error_int, annotate,
  sentinel, invalid_configuration,
}
use webauthn.Protocol.Bytes.{
  Challenge, new_challenge, len, min_challenge_length, recommended_challenge_length,
}

-- What `io.ReadFull` of a reader returns for a number of bytes: that many bytes, or an error. The
-- package's default reader is `crypto/rand`.
abbrev pub ReadFull : Type 0
ReadFull = ℕ → Result Bytes

pub data Reader : Type 0 where
  default_reader typed_nil_reader : Reader
  reader : ReadFull → Reader

-- `RandomChallengeGenerator`.
pub record RandomGenerator : Type 0 where
  pub source : Reader
  pub length : ℤ

abbrev pub default_length : ℤ → ℤ
default_length n = if eq_ℤ n (pos 0) then pos recommended_challenge_length else n

abbrev pub source_of : ReadFull → Reader → Result ReadFull
source_of random default_reader = ok random
source_of random typed_nil_reader = err (message "random reader is typed nil")
source_of random (reader read) = ok read

-- `(RandomChallengeGenerator).GenerateChallenge`; `cancelled` is the error of a context that is done.
unfoldable pub generate_random : ReadFull → Option Error → RandomGenerator → Result Challenge
generate_random random (some cancelled) g = err cancelled
generate_random random none g = do
  let n = default_length g.length
  refuse_if (ltb_ℤ n (pos min_challenge_length))
      (byte_length_error_int "challenge" n min_challenge_length 0)
  read ← source_of random g.source
  raw ← read (pos_part n)
  new_challenge (bytes raw)

-- `ChallengeGenerator` values: nil, a typed nil, or an implementation, by what it returns.
pub data Generator : Type 0 where
  no_generator typed_nil_generator : Generator
  random_generator : RandomGenerator → Generator
  generator : Result Challenge → Generator

abbrev pub default_generator : RandomGenerator
default_generator = record { source = default_reader; length = pos 0 }

abbrev generated : ReadFull → Option Error → Generator → Result Challenge
generated random cancelled no_generator = generate_random random cancelled default_generator
generated random cancelled typed_nil_generator =
    err (annotate (sentinel invalid_configuration) "challenge generator is typed nil")
generated random cancelled (random_generator g) = generate_random random cancelled g
generated random cancelled (generator answer) = answer

-- The challenge of a ceremony: the one that the options give, or a generated one.
unfoldable pub choose_challenge : ReadFull → Option Error → Challenge → Generator → Result Challenge
unfolding generate_random
choose_challenge random cancelled given source =
    if len given == 0 then generated random cancelled source else ok given
