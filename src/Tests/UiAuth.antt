-- ===== src/Tests/UiAuth.antt =====
-- The redirects of packages/ui-auth: tokens that have expired when they come, in a tab whose storage works,
-- and in one whose storage can only be read.
use iot_miniservers.Prelude.{
  ℕ, ◌+◌, ◌*◌, ◌≤◌, ◌≡◌, refl, Bool, true, false, none, some, List, [], ◌∷◌, text,
}
use iot_miniservers.Prelude.Result.{ok}
use iot_miniservers.UiAuth.{
  User, SessionStorage, Tab, Page, Run, loading, anonymous, recover, renew,
}
use iot_miniservers.UiAuth.Callback.{
  Arrival, arrive, open_page, journey, route_path_of, auth_callback,
}
use iot_miniservers.UiAuth.Journey.{redirect_count, waits, journey-recover}
use iot_miniservers.UiAuth.Endless.{journey-endless}
use iot_miniservers.UiAuth.Landing.{auth_callback-location}

abbrev storage : Bool → SessionStorage
storage writes = record {
  reads = true;
  writes = writes;
  removes = true;
  sso_attempted = false;
  renew_attempts = none;
}

abbrev tab : Bool → Tab
tab writes = record { storage = storage writes; user = none; state = loading; redirects = [] }

abbrev page : Page
page = record { handling_callback = false; location = text "/admin"; now = 9000000 }

-- A token that has expired.
abbrev stale : User
stale = record { access_token = text "t"; expires_at = some 100 }

abbrev expired : User → ℕ → Bool
expired u now = true

abbrev stale_arrival : Arrival
stale_arrival = record {
  error = none;
  exchange = ok (record { user = stale; return_to = some (text "/admin") });
  page = page;
  stays = true;
  starts = true;
}

abbrev kept_run : Run
kept_run = record { cancelled = false; cancelled_later = false; starts = true }

abbrev four_stale : List Arrival
four_stale = stale_arrival ∷ stale_arrival ∷ stale_arrival ∷ stale_arrival ∷ []

-- The third expired token ends with the sign-in page.
rests : (journey four_stale (recover expired page (ok none) kept_run (tab true))).state ≡ anonymous
unfolding recover renew journey arrive
rests = refl

-- A path that the check of the return path would refuse, behind a base path.
double_slash :
    route_path_of (some (text "/app//evil.test")) (text "/app/") ≡ some (text "//evil.test")
unfolding route_path_of
double_slash = refl

-- A token with a second left beyond the skew.
abbrev short_arrival : Arrival
short_arrival = record stale_arrival {
  exchange =
      ok (record {
        user = record stale { expires_at = some 9061 };
        return_to = some (text "/admin");
      });
}

journey-recover_example :
    redirect_count (
      journey
        (short_arrival ∷ four_stale)
        (open_page expired page (ok none) kept_run true (tab true)))
    ≤ redirect_count (tab true) + 3 * (1 + 0 + waits (short_arrival ∷ four_stale))
journey-recover_example =
    journey-recover expired page (ok none) kept_run true (short_arrival ∷ four_stale) (tab true)
      refl

-- The first page redirects, the second behind its timer, and two of those with expired tokens.
four_redirects :
    redirect_count (
      journey
        (short_arrival ∷ four_stale)
        (open_page expired page (ok none) kept_run true (tab true)))
    ≡ 4
unfolding recover renew journey arrive open_page
four_redirects = refl

journey-endless_example :
    redirect_count (journey four_stale (tab false)) ≡ redirect_count (tab false) + 4
journey-endless_example = journey-endless four_stale (tab false) refl refl

auth_callback-location_example :
    auth_callback none
      (ok (record { user = stale; return_to = some (text "/app/admin") }))
      (text "/app/")
      (text "/")
    ≡ some (text "/admin")
auth_callback-location_example =
    auth_callback-location (text "/app/") (text "admin") refl none stale (text "/") refl refl refl
