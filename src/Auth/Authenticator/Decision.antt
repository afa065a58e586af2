-- ===== src/Auth/Authenticator/Decision.antt =====
-- What `authenticate` decides, against the answers of the chain taken as a list.
use iot_miniservers.Prelude.{
  ℕ, ◌≤◌, ltb, leb, Bool-cases, ap, ◌≡◌, refl, ◌↔◌, ◌≢◌, ◌⊎◌, inl, inr, Bool, true, false, not,
  Option, none, some, List, [], ◌∷◌, ◌++◌, append_assoc, append-nil, Text, any, every, find, map,
  if◌then◌else◌, arith, Option-cases, is_some, any-find-none, any-find-some, find_passes,
  find_fails, text_eq, sym, ◌∙◌,
}
use iot_miniservers.Prelude.Dict
use iot_miniservers.Prelude.Result.{Result, ok, err}
use iot_miniservers.Auth.Outcome.{
  Principal, RefusalReason, missing, invalid, wrong_audience, unknown_issuer, indeterminate,
  refusal, RefusedOutcome, VerificationOutcome, verified, refused, CredentialSource, TokenVerifier,
  is_indeterminate, is_missing, record_verification,
}
use iot_miniservers.Auth.Authenticator.{
  AuthDecision, AuthError, allowed, denied, AuthVerifiers, status_for_reason, most_telling, resolve,
  attempt, refusal_of, try_chain, run_chain, authenticate, no_verifier,
}

-- The principal of the first answer that verified.
abbrev pub first_verified : List VerificationOutcome → Option Principal
first_verified [] = none
first_verified (verified p ∷ os) = some p
first_verified (refused r ∷ os) = first_verified os

-- The answers up to the first that verified, that one included.
abbrev pub until_verified : List VerificationOutcome → List VerificationOutcome
until_verified [] = []
until_verified (verified p ∷ os) = verified p ∷ []
until_verified (refused r ∷ os) = refused r ∷ until_verified os

abbrev pub refused_as : (RefusalReason → Bool) → VerificationOutcome → Bool
refused_as f (verified p) = false
refused_as f (refused r) = f r.reason

-- The refusals before the first answer that verified.
abbrev refusals : List VerificationOutcome → List RefusedOutcome
refusals [] = []
refusals (verified p ∷ os) = []
refusals (refused r ∷ os) = r ∷ refusals os

abbrev answers : CredentialSource → List TokenVerifier → List VerificationOutcome
answers source chain = map (attempt source) chain

-- The result of the loop, from the answers alone.
abbrev concluded : List RefusedOutcome → Option Principal → Result AuthError AuthDecision
concluded fs (some p) = ok (allowed p)
concluded fs none = refusal_of (most_telling fs)

VerificationOutcome-cases :
    (o : VerificationOutcome)
    → ((p : Principal) × (o ≡ verified p)) ⊎ ((r : RefusedOutcome) × (o ≡ refused r))
VerificationOutcome-cases (verified p) = inl (p, refl)
VerificationOutcome-cases (refused r) = inr (r, refl)

try_chain-answers :
    (source : CredentialSource) (chain : List TokenVerifier) (fs : List RefusedOutcome)
    → (try_chain source chain fs).0
      ≡ concluded (fs ++ refusals (answers source chain)) (first_verified (answers source chain))
unfolding try_chain
try_chain-answers source [] fs = rw append-nil
try_chain-answers source (v ∷ chain) fs = elim (VerificationOutcome-cases (attempt source v)) [
  | inl (p, e) ↦ rw (e, try_chain)
  | inr (r, e) ↦ rw (e, try_chain, try_chain-answers source chain (fs ++ r ∷ []), append_assoc)
]

try_chain-verifications :
    (source : CredentialSource) (chain : List TokenVerifier) (fs : List RefusedOutcome)
    → (try_chain source chain fs).1
      ≡ map record_verification (until_verified (answers source chain))
unfolding try_chain
try_chain-verifications source [] fs = refl
try_chain-verifications source (v ∷ chain) fs =
    elim (VerificationOutcome-cases (attempt source v)) [
      | inl (p, e) ↦ rw (e, try_chain)
      | inr (r, e) ↦ rw (e, try_chain, try_chain-verifications source chain (fs ++ r ∷ []))
    ]

abbrev ind : RefusedOutcome → Bool
ind r = is_indeterminate r.reason

abbrev miss : RefusedOutcome → Bool
miss r = is_missing r.reason

-- How telling a reason is.
abbrev pub telling : RefusalReason → ℕ
telling indeterminate = 2
telling missing = 0
telling invalid = 1
telling wrong_audience = 1
telling unknown_issuer = 1

-- The first among the most telling refusals of a list.
abbrev pub IsMostTelling : RefusedOutcome → List RefusedOutcome → Type 0
IsMostTelling worst fs =
    (before : List RefusedOutcome) × (after : List RefusedOutcome) × (fs ≡ before ++ worst ∷ after)
    × (every (λ r. ltb (telling r.reason) (telling worst.reason)) before ≡ true)
    × (every (λ r. leb (telling r.reason) (telling worst.reason)) after ≡ true)

telling_cases :
    (r : RefusedOutcome) → telling r.reason ≡ (if ind r then 2 else if miss r then 0 else 1)
telling_cases r = ground arith

up_to_rank :
    (n : ℕ) (f : RefusedOutcome) (fs : List RefusedOutcome)
    → n ≤ telling f.reason
    → every (λ r. leb (telling r.reason) n) fs ≡ true
    → every (λ r. leb (telling r.reason) (telling f.reason)) fs ≡ true
up_to_rank n f [] h k = refl
up_to_rank n f (g ∷ fs) h k = ground (arith, h, k, up_to_rank n f fs h)

below_first :
    (f : RefusedOutcome) (fs : List RefusedOutcome)
    → every (λ r. leb (telling r.reason) 0) (f ∷ fs) ≡ true
    → every (λ r. leb (telling r.reason) (telling f.reason)) fs ≡ true
below_first f fs h = up_to_rank 0 f fs (omega arith) (ground (arith, h))

-- What a test finds that only passes from a rank on, where the whole list is of that rank at most.
found-IsMostTelling :
    (p : RefusedOutcome → Bool) (n : ℕ)
    → ((r : RefusedOutcome) → p r ≡ leb n (telling r.reason))
    → (fs : List RefusedOutcome) (w : RefusedOutcome) → find p fs ≡ some w
    → every (λ r. leb (telling r.reason) n) fs ≡ true
    → IsMostTelling w fs
found-IsMostTelling p n rank [] w h k = absurd (ground (arith, h))
found-IsMostTelling p n rank (f ∷ fs) w h k = elim (Bool-cases (p f)) [
  | inl here ↦
      let same : f ≡ w = ground (arith, h, here) in
      rw (← same)
        ([], fs, refl, refl, up_to_rank n f fs (ground (arith, here, rank f)) (ground (arith, k)))
  | inr passed ↦
      let (before, after, split, less, most) =
        found-IsMostTelling p n rank fs w (ground (arith, h, passed)) (ground (arith, k)) in
      (
        f ∷ before,
        after,
        ap (λ l. f ∷ l) split,
        ground
            (arith, passed, rank f, rank w, less, find_passes p fs w (ground (arith, h, passed))),
        most,
      )
]

no_ind_below :
    (fs : List RefusedOutcome)
    → any ind fs ≡ false
    → every (λ r. leb (telling r.reason) 1) fs ≡ true
no_ind_below [] h = refl
no_ind_below (f ∷ fs) h = ground (arith, h, telling_cases f, no_ind_below fs)

all_below : (fs : List RefusedOutcome) → every (λ r. leb (telling r.reason) 2) fs ≡ true
all_below [] = refl
all_below (f ∷ fs) = ground (arith, telling_cases f, all_below fs)

all_miss :
    (fs : List RefusedOutcome)
    → any (λ r. not (miss r)) fs ≡ false
    → every (λ r. leb (telling r.reason) 0) fs ≡ true
all_miss [] h = refl
all_miss (f ∷ fs) h = ground (arith, h, telling_cases f, all_miss fs)

abbrev Reported : RefusedOutcome → List RefusedOutcome → Type 0
Reported worst fs =
    (most_telling fs ≡ some worst) × (ind worst ≡ any ind fs) × IsMostTelling worst fs

most_telling-Reported :
    (f : RefusedOutcome) (fs : List RefusedOutcome)
    → (worst : RefusedOutcome) × Reported worst (f ∷ fs)
unfolding most_telling
most_telling-Reported f fs =
    let l : List RefusedOutcome = f ∷ fs in
    elim (Option-cases (find ind l)) [
      | inr (w, e) ↦ (
        w,
        (
          ground arith,
          find_passes ind l w e ∙ sym (any-find-some ind l w e),
          found-IsMostTelling ind 2 (λ r. ground (arith, telling_cases r)) l w e (all_below l),
        ),
      )
      | inl e ↦
          let no_ind = any-find-none ind l e in
          elim (Option-cases (find (λ r. not (miss r)) l)) [
            | inr (w, k) ↦ (
              w,
              (
                ground arith,
                find_fails ind (λ r. not (miss r)) l w no_ind k ∙ sym no_ind,
                found-IsMostTelling (λ r. not (miss r)) 1 (λ r. ground (arith, telling_cases r)) l w
                    k (no_ind_below l no_ind),
              ),
            )
            | inl k ↦
                let low = all_miss l (any-find-none (λ r. not (miss r)) l k) in
                (f, (ground arith, ground arith, ([], fs, refl, refl, below_first f fs low)))
          ]
    ]

any-refusals :
    (q : RefusalReason → Bool) (os : List VerificationOutcome)
    → first_verified os ≡ none
    → any (λ r. q r.reason) (refusals os) ≡ any (refused_as q) os
any-refusals q [] h = refl
any-refusals q (verified p ∷ os) h = ground arith
any-refusals q (refused r ∷ os) h = ground (arith, any-refusals q os h)

resolve-ne-nil :
    (verifiers : AuthVerifiers) (m : Text) (ms : List Text) → resolve verifiers (m ∷ ms) ≢ ok []
unfolding resolve
resolve-ne-nil verifiers m ms h = elim (Option-cases (Dict.get m verifiers)) [
  | inl e ↦ ground arith
  | inr (v, e) ↦ ground arith
]

concluded-allowed :
    (fs : List RefusedOutcome) (o : Option Principal) (p : Principal)
    → (concluded fs o ≡ ok (allowed p)) ↔ (o ≡ some p)
unfolding refusal_of
concluded-allowed fs (some q) p = ground arith
concluded-allowed fs none p = ground arith

status_eq :
    (r : RefusedOutcome) → status_for_reason (refusal r.reason) ≡ (if ind r then 503 else 401)
unfolding status_for_reason
status_eq r = ground arith

-- A denial for the most telling refusal, with its own reason and detail.
abbrev pub Denial : List VerificationOutcome → Result AuthError AuthDecision → Type 0
Denial os result =
    (worst : RefusedOutcome) × IsMostTelling worst (refusals os)
    × (result
        ≡ ok (
            denied worst.reason (if any (refused_as is_indeterminate) os then 503 else 401)
              worst.detail))

refusal_of-Denial :
    (o : VerificationOutcome) (os : List VerificationOutcome)
    → first_verified (o ∷ os) ≡ none
    → Denial (o ∷ os) (refusal_of (most_telling (refusals (o ∷ os))))
unfolding refusal_of
refusal_of-Denial (verified p) os h = ground arith
refusal_of-Denial (refused r) os h =
    let (w, (told, is_ind, first)) = most_telling-Reported r (refusals os) in
    let inds = any-refusals is_indeterminate (refused r ∷ os) h in
    (w, first, rw told (ground (arith, status_eq w, is_ind, inds)))

resolve_ne :
    (verifiers : AuthVerifiers) (m : Text) (ms : List Text) (chain : List TokenVerifier)
    → resolve verifiers (m ∷ ms) ≡ ok chain
    → (v : TokenVerifier) × (rest : List TokenVerifier) × (chain ≡ v ∷ rest)
unfolding resolve
resolve_ne verifiers m ms [] h = absurd (resolve-ne-nil verifiers m ms h)
resolve_ne verifiers m ms (v ∷ rest) h = (v, rest, refl)

module _ (verifiers : AuthVerifiers) (source : CredentialSource) (m : Text) (ms : List Text)
    (chain : List TokenVerifier) (resolved : resolve verifiers (m ∷ ms) ≡ ok chain) where
  authenticate-chain : authenticate verifiers source (m ∷ ms) ≡ try_chain source chain []
  unfolding authenticate run_chain
  authenticate-chain = rw (resolved, run_chain)

  -- With every named method configured, the request is allowed as `p` exactly when some verifier of
  -- the chain verified its credential and the first that did so answered `p`.
  pub authenticate-allowed :
      (p : Principal)
      → ((authenticate verifiers source (m ∷ ms)).0 ≡ ok (allowed p))
        ↔ (first_verified (map (attempt source) chain) ≡ some p)
  authenticate-allowed p = rw (authenticate-chain, try_chain-answers) (concluded-allowed _ _ p)

  -- With every named method configured and none verifying, the request is denied with the reason and the
  -- detail of the first among the most telling refusals: an indeterminate one tells most, a missing
  -- credential least. The status is 503 exactly when some verifier was indeterminate, and 401 otherwise.
  pub authenticate-denied :
      first_verified (map (attempt source) chain) ≡ none
      → Denial (map (attempt source) chain) (authenticate verifiers source (m ∷ ms)).0
  authenticate-denied h =
      let (v, rest, e) = resolve_ne verifiers m ms chain resolved in
      rw (authenticate-chain, try_chain-answers, h)
        (rw e (refusal_of-Denial (attempt source v) (answers source rest) (rw e at h)))

  -- With every named method configured, the counter gets one addition for each verifier up to the
  -- first that verified, in the order of the route, and none for those behind it.
  pub authenticate-verifications :
      (authenticate verifiers source (m ∷ ms)).1
      ≡ map record_verification (until_verified (map (attempt source) chain))
  authenticate-verifications = rw authenticate-chain (try_chain-verifications source chain [])

resolve-no_verifier :
    (verifiers : AuthVerifiers) (before : List Text) (method : Text) (after : List Text)
    → every (λ m. is_some (Dict.get m verifiers)) before ≡ true
    → Dict.get method verifiers ≡ none
    → resolve verifiers (before ++ method ∷ after) ≡ err (no_verifier method)
unfolding resolve
resolve-no_verifier verifiers [] method after known unknown = rw (unknown, resolve)
resolve-no_verifier verifiers (m ∷ before) method after known unknown =
    elim (Option-cases (Dict.get m verifiers)) [
      | inl e ↦ ground arith
      | inr (v, e) ↦
          rw (e, resolve)
            (rw (resolve-no_verifier verifiers before method after (ground arith) unknown))
    ]

-- A route that names a method without a verifier gets the error for the first such method,
-- wherever it stands in the list, and no verifier is asked before.
pub authenticate-no_verifier :
    (verifiers : AuthVerifiers) (source : CredentialSource) (before : List Text) (method : Text)
    (after : List Text)
    → every (λ m. is_some (Dict.get m verifiers)) before ≡ true
    → Dict.get method verifiers ≡ none
    → authenticate verifiers source (before ++ method ∷ after) ≡ (err (no_verifier method), [])
unfolding authenticate run_chain
authenticate-no_verifier verifiers source [] method after known unknown =
    rw (resolve-no_verifier verifiers [] method after known unknown, run_chain)
authenticate-no_verifier verifiers source (m ∷ before) method after known unknown =
    rw (resolve-no_verifier verifiers (m ∷ before) method after known unknown, run_chain)
