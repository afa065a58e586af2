-- ===== src/UiAuth/Landing.antt =====
-- packages/ui-auth/src/AuthCallback.tsx: where a sign-in ends.
use iot_miniservers.Prelude.{
  ◌≡◌, refl, ap, ◌∙◌, true, false, Option, some, or_else, [], ◌∷◌, ◌++◌, Text, text, starts_with,
  starts_with-append, drop-append,
}
use iot_miniservers.Prelude.Result.{ok}
use iot_miniservers.UiAuth.{User}
use iot_miniservers.UiAuth.Callback.{
  strip_slash, within_base, normalised, off_callback, route_path_of, is_no_session, handle_callback,
  auth_callback,
}

within_base_lem : (base path : Text) → within_base base (base ++ path) ≡ path
within_base_lem [] path = refl
within_base_lem (c ∷ base) path =
    rw (starts_with-append (c ∷ base) path) (drop-append (c ∷ base) path)

module _ (base_path rest : Text)
    (elsewhere : starts_with (text "/" ++ rest) (text "/callback") ≡ false) where
  route_path_of-location :
      route_path_of (some (strip_slash base_path ++ (text "/" ++ rest))) base_path
      ≡ some (text "/" ++ rest)
  unfolding route_path_of
  route_path_of-location =
      ap (λ path. off_callback (normalised path))
        (within_base_lem (strip_slash base_path) (text "/" ++ rest))
      ∙ rw elsewhere

  -- A user who was on a page of an app that is mounted under a base path comes back to that page, as the
  -- router of the app names it, when the provider hands back the location that it was given. The location
  -- may not begin with two slashes, and the page may not be a callback page.
  pub auth_callback-location :
      (error : Option Text) (u : User) (default_path : Text)
      → is_no_session error ≡ false
      → starts_with (strip_slash base_path ++ (text "/" ++ rest)) (text "/") ≡ true
      → starts_with (strip_slash base_path ++ (text "/" ++ rest)) (text "//") ≡ false
      → auth_callback error
          (ok (record { user = u; return_to = some (strip_slash base_path ++ (text "/" ++ rest)) }))
          base_path
          default_path
        ≡ some (text "/" ++ rest)
  unfolding auth_callback handle_callback
  auth_callback-location error u default_path came rooted single =
      rw (came, rooted, single) (ap (λ p. some (or_else p default_path)) route_path_of-location)
