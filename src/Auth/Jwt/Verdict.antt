-- ===== src/Auth/Jwt/Verdict.antt =====
-- What a JWT verifier vouches for, and which of its refusals blame the token.
use iot_miniservers.Prelude.{
  ◌≡◌, inl, inr, refl, true, false, Option, none, some, [], Text, arith, Bool-cases, ◌==◌, text_eq,
}
use iot_miniservers.Prelude.Dict
use iot_miniservers.Prelude.Result.{Result, ok, err}
use iot_miniservers.Auth.Outcome.{Principal, RefusedOutcome, verified, refused, is_indeterminate}
use iot_miniservers.Auth.Keys.{
  TrustedIssuer, KeyError, source_failed, unknown_static_issuer, static_algorithm_mismatch,
  no_jwks_configured, no_matching_key, no_source_configured, get_key,
}
use iot_miniservers.Auth.Jwt.{
  Payload, Header, JwtFailure, claim_failed, other_failure, Jose, JwtVerifier, trim, to_principal,
  judge_sub, judge, options_for, with_key, verify_issued, verify_decoded, verify,
}

module _ {Key : Type 0} (lib : Jose Key) where
  -- What stands behind a verified principal: a trusted row for the issuer that the token claims,
  -- a key that the source released for that issuer and the algorithm of the token's header,
  -- and a payload that `jwtVerify` accepted for the issuer, audience and algorithms of the row.
  pub record Vouched (credential : Text) (v : JwtVerifier Key) (p : Principal) : Type 0 where
    pub issuer : Text
    pub header : Header
    pub row : TrustedIssuer
    pub key : Key
    pub payload : Payload
    pub sub : Text
    pub claimed : lib.decode_issuer credential ≡ ok (some issuer)
    pub read : lib.decode_header credential ≡ ok header
    pub trusted : Dict.get issuer v.by_issuer ≡ some row
    pub released :
        (get_key lib.keys
          (record { issuer = issuer; kid = header.kid; algorithm = header.alg })
          v.keys).0
        ≡ ok key
    pub accepted : lib.jwt_verify credential key (options_for lib row) ≡ ok payload
    pub subject : payload.sub ≡ some sub
    pub named : lib.is_not_empty sub ≡ true
    pub principal : p ≡ to_principal payload sub row

  abbrev Judged : TrustedIssuer → Principal → Result JwtFailure Payload → Type 0
  Judged row p r =
      (payload : Payload) × (sub : Text) × (r ≡ ok payload)
      × (payload.sub ≡ some sub)
      × (lib.is_not_empty sub ≡ true)
      × (p ≡ to_principal payload sub row)

  judge_sub-verified :
      (row : TrustedIssuer) (payload : Payload) (p : Principal) (o : Option Text)
      → judge_sub lib row payload o ≡ verified p
      → (sub : Text) × (o ≡ some sub)
        × (lib.is_not_empty sub ≡ true)
        × (p ≡ to_principal payload sub row)
  unfolding judge_sub
  judge_sub-verified row payload p none h = ground arith
  judge_sub-verified row payload p (some sub) h = (sub, refl, ground arith, ground arith)

  judge-verified :
      (row : TrustedIssuer) (p : Principal) (r : Result JwtFailure Payload)
      → judge lib row r ≡ verified p
      → Judged row p r
  unfolding judge
  judge-verified row p (ok payload) h =
      let (sub, e, named, principal) = judge_sub-verified row payload p payload.sub h in
      (payload, sub, refl, e, named, principal)
  judge-verified row p (err (claim_failed name message)) h = ground arith
  judge-verified row p (err (other_failure message)) h = ground arith

  with_key-verified :
      (credential : Text) (row : TrustedIssuer) (p : Principal) (answer : Result KeyError Key)
      → with_key lib credential row answer ≡ verified p
      → (key : Key) × (answer ≡ ok key)
        × Judged row p (lib.jwt_verify credential key (options_for lib row))
  unfolding with_key
  with_key-verified credential row p (ok key) h =
      (key, refl, judge-verified row p (lib.jwt_verify credential key (options_for lib row)) h)
  with_key-verified credential row p (err e) h = ground arith

  module _ (credential : Text) (v : JwtVerifier Key) (p : Principal) where
    verify_issued-Vouched :
        (issuer : Text) (header : Header) (o : Option TrustedIssuer)
        → lib.decode_issuer credential ≡ ok (some issuer)
        → lib.decode_header credential ≡ ok header
        → Dict.get issuer v.by_issuer ≡ o
        → (verify_issued lib credential issuer header v o).0 ≡ verified p
        → Vouched credential v p
    unfolding verify_issued
    verify_issued-Vouched issuer header none claimed read trusted h = ground arith
    verify_issued-Vouched issuer header (some row) claimed read trusted h =
        let (key, released, judged) = with_key-verified credential row p _ h in
        let (payload, sub, accepted, subject, named, principal) = judged in
        record {
          issuer = issuer;
          header = header;
          row = row;
          key = key;
          payload = payload;
          sub = sub;
          claimed = claimed;
          read = read;
          trusted = trusted;
          released = released;
          accepted = accepted;
          subject = subject;
          named = named;
          principal = principal;
        }

    verify_decoded-Vouched :
        (d : Result Text (Option Text)) (header : Result Text Header)
        → lib.decode_issuer credential ≡ d
        → lib.decode_header credential ≡ header
        → (verify_decoded lib credential v d header).0 ≡ verified p
        → Vouched credential v p
    unfolding verify_decoded
    verify_decoded-Vouched (err m) header e k h = ground arith
    verify_decoded-Vouched (ok claimed) (err m) e k h = ground arith
    verify_decoded-Vouched (ok none) (ok header) e k h = ground arith
    verify_decoded-Vouched (ok (some issuer)) (ok header) e k h =
        verify_issued-Vouched issuer header (Dict.get issuer v.by_issuer) e k refl h

  -- A credential that verifies as `p` is not blank, and `p` is vouched for: its issuer is trusted,
  -- the key was released for the token's own issuer and algorithm, `jwtVerify` accepted the payload
  -- for the trusted row, and `p` is read off that payload, with a subject, and that row.
  pub verify-Vouched :
      (credential : Text) (v : JwtVerifier Key) (p : Principal)
      → (verify lib credential v).0 ≡ verified p
      → ((trim credential == []) ≡ false) × Vouched credential v p
  unfolding verify
  verify-Vouched credential v p h = elim (Bool-cases (trim credential == [])) [
    | inl blank ↦ ground arith
    | inr some_text ↦ (
      some_text,
      verify_decoded-Vouched credential v p (lib.decode_issuer credential)
          (lib.decode_header credential) refl refl (ground (arith, h)),
    )
  ]

  judge-indeterminate :
      (row : TrustedIssuer) (r : Result JwtFailure Payload) (o : RefusedOutcome)
      → judge lib row r ≡ refused o
      → is_indeterminate o.reason ≡ false
  unfolding judge
  judge-indeterminate row (ok payload) o h = ground arith
  judge-indeterminate row (err (claim_failed name message)) o h = ground arith
  judge-indeterminate row (err (other_failure message)) o h = ground arith

  -- The key source could not be consulted about a trusted issuer that the token claims.
  abbrev pub Unconsultable : Text → JwtVerifier Key → Type 0
  Unconsultable credential v =
      (issuer : Text) × (header : Header) × (row : TrustedIssuer) × (message : Text)
      × (lib.decode_issuer credential ≡ ok (some issuer))
      × (lib.decode_header credential ≡ ok header)
      × (Dict.get issuer v.by_issuer ≡ some row)
      × ((get_key lib.keys (record { issuer = issuer; kid = header.kid; algorithm = header.alg })
            v.keys).0
          ≡ err (source_failed message))

  with_key-refused :
      (credential : Text) (row : TrustedIssuer) (o : RefusedOutcome) (answer : Result KeyError Key)
      → with_key lib credential row answer ≡ refused o
      → is_indeterminate o.reason ≡ true
      → (message : Text) × (answer ≡ err (source_failed message))
  unfolding with_key
  with_key-refused credential row o (ok key) h i =
      ground
        (arith, judge-indeterminate row (lib.jwt_verify credential key (options_for lib row)) o)
  with_key-refused credential row o (err (source_failed m)) h i = (m, refl)
  with_key-refused credential row o (err (unknown_static_issuer m)) h i = ground arith
  with_key-refused credential row o (err (static_algorithm_mismatch m x y)) h i = ground arith
  with_key-refused credential row o (err (no_jwks_configured m)) h i = ground arith
  with_key-refused credential row o (err (no_matching_key m)) h i = ground arith
  with_key-refused credential row o (err (no_source_configured m)) h i = ground arith

  module _ (credential : Text) (v : JwtVerifier Key) (o : RefusedOutcome) where
    verify_issued-Unconsultable :
        (issuer : Text) (header : Header) (row? : Option TrustedIssuer)
        → lib.decode_issuer credential ≡ ok (some issuer)
        → lib.decode_header credential ≡ ok header
        → Dict.get issuer v.by_issuer ≡ row?
        → (verify_issued lib credential issuer header v row?).0 ≡ refused o
        → is_indeterminate o.reason ≡ true
        → Unconsultable credential v
    unfolding verify_issued
    verify_issued-Unconsultable issuer header none claimed read trusted h i = ground arith
    verify_issued-Unconsultable issuer header (some row) claimed read trusted h i =
        let (m, e) = with_key-refused credential row o _ h i in
        (issuer, header, row, m, claimed, read, trusted, e)

    verify_decoded-Unconsultable :
        (d : Result Text (Option Text)) (header : Result Text Header)
        → lib.decode_issuer credential ≡ d
        → lib.decode_header credential ≡ header
        → (verify_decoded lib credential v d header).0 ≡ refused o
        → is_indeterminate o.reason ≡ true
        → Unconsultable credential v
    unfolding verify_decoded
    verify_decoded-Unconsultable (err m) header e k h i = ground arith
    verify_decoded-Unconsultable (ok claimed) (err m) e k h i = ground arith
    verify_decoded-Unconsultable (ok none) (ok header) e k h i = ground arith
    verify_decoded-Unconsultable (ok (some issuer)) (ok header) e k h i =
        verify_issued-Unconsultable issuer header (Dict.get issuer v.by_issuer) e k refl h i

  -- A credential is refused as `indeterminate`, the one reason that is answered 503, only if the
  -- key source could not be consulted about a trusted issuer: nothing that the token itself gets
  -- wrong is reported so.
  pub verify-Unconsultable :
      (credential : Text) (v : JwtVerifier Key) (o : RefusedOutcome)
      → (verify lib credential v).0 ≡ refused o
      → is_indeterminate o.reason ≡ true
      → Unconsultable credential v
  unfolding verify
  verify-Unconsultable credential v o h i = elim (Bool-cases (trim credential == [])) [
    | inl blank ↦ ground arith
    | inr some_text ↦
        verify_decoded-Unconsultable credential v o (lib.decode_issuer credential)
          (lib.decode_header credential) refl refl (ground (arith, h)) i
  ]
