-- ===== src/Attestation/Tpm/Sound/Fields.antt =====
-- attestation/tpm/statement.go: the fields of a statement and the bytes they hold.
use webauthn.Prelude.{
  false, not, some, Bytes, ascii, bytes_eq, bytes_eq_iff, ◌==◌, ◌≡◌, sym, arith, All, IsByte,
  Bool-cases, Option-cases, inl, inr,
}
use webauthn.Errors.{ok, refuse_step, call_step}
use webauthn.Attestation.Statement.{
  string_field-any_string, any_string, bytes_field-any_bytes, Statement, field, any_bytes,
  bytes_field, statement_length, entries, entry_keys, only_keys, string_field, algorithm_field,
  x5c_field, AnyValue, Entries, no_entries, entry, entry_at,
}
use webauthn.Attestation.Tpm.Verify.{TpmStatement, invalid, tpm_keys, parse_tpm_statement}

-- The byte strings of a statement are bytes.
abbrev ValueBytes : AnyValue → Type 0
ValueBytes (any_bytes b) = All IsByte b
ValueBytes _ = Unit {0}

abbrev pub HasBytes : Entries → Type 0
HasBytes no_entries = Unit {0}
HasBytes (entry k v es) = ValueBytes v × HasBytes es

entry_at-bytes :
    (es : Entries) (k : Bytes) {v : AnyValue} → HasBytes es → entry_at k es ≡ some v → ValueBytes v
unfolding entry_at
entry_at-bytes no_entries k all_bytes e = cc
entry_at-bytes (entry j w es) k {v} (here, later) e = elim (Bool-cases (bytes_eq j k)) [
  | inl found ↦ let same : w ≡ v = ground (arith, e, found) in rw (sym same) here
  | inr other ↦ entry_at-bytes es k later (ground (arith, e, other))
]

pub field-bytes :
    (s : Statement) (k b : Bytes) → HasBytes (entries s) → field s k ≡ any_bytes b → All IsByte b
field-bytes s k b all_bytes e = elim (Option-cases (entry_at k (entries s))) [
  | inl missing ↦ absurd (ground (arith, e, missing))
  | inr (v, found) ↦
      let same : v ≡ any_bytes b = ground (arith, e, found) in
      rw same at (entry_at-bytes (entries s) k all_bytes found)
]

-- The statement's six fields, each read under its own key, and there is no other.
pub record IsRead (s : Statement) (t : TpmStatement) : Type 0 where
  pub six : statement_length s ≡ 6
  pub only : only_keys invalid tpm_keys (entry_keys (entries s)) ≡ ok tt
  pub version : field s (ascii "ver") ≡ any_string (ascii "2.0")
  pub algorithm : algorithm_field (field s (ascii "alg")) invalid ≡ ok t.algorithm
  pub x5c : x5c_field (field s (ascii "x5c")) invalid ≡ ok t.x5c
  pub signature : field s (ascii "sig") ≡ any_bytes t.signature
  pub cert_info : field s (ascii "certInfo") ≡ any_bytes t.cert_info
  pub public_area : field s (ascii "pubArea") ≡ any_bytes t.public_area

pub statement-IsRead :
    (s : Statement) {t : TpmStatement}
    → parse_tpm_statement s ≡ ok t
    → not (bytes_eq t.version (ascii "2.0")) ≡ false
    → IsRead s t
unfolding parse_tpm_statement
statement-IsRead s {t} h is_2_0 = refuse_step (not (statement_length s == 6)) invalid h (λ six h1.
    call_step (only_keys invalid tpm_keys (entry_keys (entries s))) h1 (λ keys_ok e1 h2.
      call_step (string_field (field s (ascii "ver")) invalid) h2 (λ version e2 h3.
        call_step (algorithm_field (field s (ascii "alg")) invalid) h3 (λ algorithm e4 h4.
          call_step (x5c_field (field s (ascii "x5c")) invalid) h4 (λ x5c e5 h5.
            call_step (bytes_field (field s (ascii "sig")) invalid) h5 (λ signature e6 h6.
              call_step (bytes_field (field s (ascii "certInfo")) invalid) h6 (λ cert_info e7 h7.
                call_step (bytes_field (field s (ascii "pubArea")) invalid) h7 (λ public_area e8 h8.
                  let version_eq : version ≡ ascii "2.0" =
                    cc (h8, (bytes_eq_iff t.version (ascii "2.0")).0 (ground (arith, is_2_0))) in
                  let algorithm_eq : algorithm ≡ t.algorithm = cc in
                  let x5c_eq : x5c ≡ t.x5c = cc in
                  let signature_eq : signature ≡ t.signature = cc in
                  let info_eq : cert_info ≡ t.cert_info = cc in
                  let area_eq : public_area ≡ t.public_area = cc in
                  record {
                    six = ground (arith, six);
                    only = e1;
                    version = rw (sym version_eq) (string_field-any_string _ invalid e2);
                    algorithm = rw (sym algorithm_eq) e4;
                    x5c = rw (sym x5c_eq) e5;
                    signature = rw (sym signature_eq) (bytes_field-any_bytes _ invalid e6);
                    cert_info = rw (sym info_eq) (bytes_field-any_bytes _ invalid e7);
                    public_area = rw (sym area_eq) (bytes_field-any_bytes _ invalid e8);
                  }))))))))
