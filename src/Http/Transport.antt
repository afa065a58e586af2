-- ===== src/Http/Transport.antt =====
-- packages/http-provider/src/utils/applyTransport.ts. `isNotEmpty` of @radoslavirha/utils and the `set` of
-- the headers of axios are parameters.
use iot_miniservers.Prelude.{
  ◌≡◌, refl, ◌∙◌, Bool, true, false, ◌&&◌, Option, none, some, or_else, List, [], ◌∷◌, ◌++◌, Text,
  text, every, if◌then◌else◌, text_eq, arith, inl, inr, Bool-cases,
}
use iot_miniservers.Prelude.Dict
use iot_miniservers.Prelude.Dict.{Dict}
use iot_miniservers.Prelude.Result.{Result, ok, err, ◌>>=◌}

pub data TransportEntry : Type 0 where
  static_entry : Text → Text → TransportEntry
  credential_entry : Text → Text → Option Text → Option Text → TransportEntry

pub record TransportConfig : Type 0 where
  pub headers : List TransportEntry
  pub query_params : List TransportEntry

pub record Outbound (H : Type 0) : Type 0 where
  pub header_set : H
  pub params : Dict Text Text

abbrev pub Credentials : Type 0
Credentials = Dict Text Text

abbrev pub entry_name : TransportEntry → Text
entry_name (static_entry name value) = name
entry_name (credential_entry name credential front back) = name

abbrev pub is_ok : {A : Type 0} → Result Text A → Bool
is_ok (ok a) = true
is_ok (err e) = false

module _ (is_not_empty : Text → Bool) (credentials : Credentials) where
  abbrev pub unproduced : Text → Text → Text
  unproduced name credential =
      text "Transport entry \""
      ++ (name
          ++ (text "\" needs credential \""
              ++ (credential ++ text "\", which the auth strategy did not produce")))

  abbrev pub filled_in : TransportEntry → Option Text → Result Text Text
  filled_in (static_entry name value) found = ok value
  filled_in (credential_entry name credential front back) none = err (unproduced name credential)
  filled_in (credential_entry name credential front back) (some value) =
      if is_not_empty value
      then ok (or_else front [] ++ (value ++ or_else back []))
      else err (unproduced name credential)

  abbrev pub looked_up : TransportEntry → Option Text
  looked_up (static_entry name value) = none
  looked_up (credential_entry name credential front back) = Dict.get credential credentials

  unfoldable pub resolve_entry : TransportEntry → Result Text Text
  resolve_entry entry = filled_in entry (looked_up entry)

  unfoldable pub apply_entries :
      {T : Type 0} → (Text → Text → T → T) → List TransportEntry → T → Result Text T
  apply_entries set [] target = ok target
  apply_entries set (entry ∷ entries) target = resolve_entry entry >>= λ value.
      apply_entries set entries (set (entry_name entry) value target)

  unfoldable pub apply_transport :
      {H : Type 0} → (Text → Text → H → H) → TransportConfig → Outbound H → Result Text (Outbound H)
  apply_transport set_header transport request =
      apply_entries set_header transport.headers request.header_set >>= λ headers.
      apply_entries Dict.insert transport.query_params request.params >>= λ params.
      ok (record { header_set = headers; params = params })

  -- An entry that needs no credential, or one that is there and not empty.
  abbrev pub serves : TransportEntry → Option Text → Bool
  serves (static_entry name value) found = true
  serves (credential_entry name credential front back) none = false
  serves (credential_entry name credential front back) (some value) = is_not_empty value

  abbrev pub is_served : TransportEntry → Bool
  is_served entry = serves entry (looked_up entry)

  filled_in-is_ok :
      (entry : TransportEntry) (found : Option Text)
      → is_ok (filled_in entry found) ≡ serves entry found
  filled_in-is_ok (static_entry name value) found = refl
  filled_in-is_ok (credential_entry name credential front back) none = refl
  filled_in-is_ok (credential_entry name credential front back) (some value) =
      elim (Bool-cases (is_not_empty value)) [ inl full ↦ rw full refl | inr empty ↦ rw empty refl ]

  bind-is_ok :
      {A B : Type 0} (r : Result Text A) (f : A → Result Text B) (b : Bool)
      → ((a : A) → is_ok (f a) ≡ b)
      → is_ok (r >>= f) ≡ (is_ok r && b)
  bind-is_ok (ok a) f b h = h a
  bind-is_ok (err e) f b h = refl

  apply_entries-is_ok :
      {T : Type 0} (set : Text → Text → T → T) (entries : List TransportEntry) (target : T)
      → is_ok (apply_entries set entries target) ≡ every is_served entries
  unfolding apply_entries resolve_entry
  apply_entries-is_ok set [] target = refl
  apply_entries-is_ok set (entry ∷ entries) target =
      rw (← filled_in-is_ok entry (looked_up entry)) (
        bind-is_ok (filled_in entry (looked_up entry)) _ (every is_served entries)
          (λ value. apply_entries-is_ok set entries (set (entry_name entry) value target)))

  -- A request goes out exactly when every header and every query parameter that needs a credential has
  -- one that is not empty.
  pub apply_transport-is_ok :
      {H : Type 0} (set_header : Text → Text → H → H) (transport : TransportConfig)
      (request : Outbound H)
      → is_ok (apply_transport set_header transport request)
        ≡ (every is_served transport.headers && every is_served transport.query_params)
  unfolding apply_transport
  apply_transport-is_ok set_header transport request =
      rw (← apply_entries-is_ok set_header transport.headers request.header_set) (
        bind-is_ok (apply_entries set_header transport.headers request.header_set) _
          (every is_served transport.query_params)
          (λ headers.
            bind-is_ok (apply_entries Dict.insert transport.query_params request.params) _ true
              (λ params. refl)
            ∙ ground
                (arith, apply_entries-is_ok Dict.insert transport.query_params request.params)))
