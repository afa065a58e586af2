-- ===== src/UiAuth/Callback.antt =====
-- packages/ui-auth/src/handleCallback.ts and AuthCallback.tsx: the page that a redirect comes back to, and
-- the pages that a redirect leads to one after the other.
use iot_miniservers.Prelude.{
  ℕ, zero, suc, Bool, true, false, not, ◌&&◌, ◌||◌, Option, none, some, List, [], ◌∷◌, ◌++◌, Text,
  text, starts_with, drop, length, nat_eqb, or_else, if◌then◌else◌, ◌==◌, text_eq,
}
use iot_miniservers.Prelude.Result.{Result, ok, err}
use iot_miniservers.UiAuth.{
  User, Tab, Page, Run, loading, on_loaded, recover, renew, fire_renewal, resolve_anonymous,
}

pub data CallbackResult : Type 0 where
  signed_in : CallbackResult
  no_session : CallbackResult
  failed : CallbackResult

pub record CallbackOutcome : Type 0 where
  pub result : CallbackResult
  pub return_to : Option Text

-- `none` also where the value is not a string.
abbrev pub safe_return_to : Option Text → Option Text
safe_return_to none = none
safe_return_to (some value) =
    if starts_with value (text "/") && not (starts_with value (text "//")) then some value else none

-- What `signinRedirectCallback` answers: the user, and the `returnTo` of its state.
pub record SignedIn : Type 0 where
  pub user : User
  pub return_to : Option Text

abbrev pub is_no_session : Option Text → Bool
is_no_session none = false
is_no_session (some error) =
    (error == text "login_required")
    || ((error == text "consent_required") || (error == text "interaction_required"))

abbrev pub exchanged : Result Text SignedIn → CallbackOutcome
exchanged (ok s) = record { result = signed_in; return_to = safe_return_to s.return_to }
exchanged (err e) = record { result = failed; return_to = none }

unfoldable pub handle_callback : Option Text → Result Text SignedIn → CallbackOutcome
handle_callback error exchange =
    if is_no_session error
    then record { result = no_session; return_to = none }
    else exchanged exchange

-- `basePath.replace(/\/$/, '')`
abbrev pub strip_slash : Text → Text
strip_slash [] = []
strip_slash (c ∷ []) = if nat_eqb c 47 then [] else c ∷ []
strip_slash (c ∷ d ∷ cs) = c ∷ strip_slash (d ∷ cs)

abbrev pub not_empty : Text → Bool
not_empty [] = false
not_empty (c ∷ cs) = true

abbrev pub within_base : Text → Text → Text
within_base base return_to =
    if not_empty base && starts_with return_to base then drop (length base) return_to else return_to

abbrev pub normalised : Text → Text
normalised path = if starts_with path (text "/") then path else text "/" ++ path

abbrev pub off_callback : Text → Option Text
off_callback path = if starts_with path (text "/callback") then none else some path

unfoldable pub route_path_of : Option Text → Text → Option Text
route_path_of none base_path = none
route_path_of (some return_to) base_path =
    off_callback (normalised (within_base (strip_slash base_path) return_to))

-- The page that a redirect comes back to: its query, the answer of the exchange, the page at the moment
-- when the second effect runs, whether it stays open until a timer with a delay fires, and whether a
-- redirect can be started then.
pub record Arrival : Type 0 where
  pub error : Option Text
  pub exchange : Result Text SignedIn
  pub page : Page
  pub stays : Bool
  pub starts : Bool

-- A new page keeps only the storage.
abbrev pub new_page : Tab → Tab
new_page t = record t { user = none; state = loading }

-- The timer of the second effect, and whether the page is left: one of no delay fires at once, any
-- other if the page stays open.
abbrev pub fired : Page → Bool → Bool → Tab × Option ℕ → Tab × Bool
fired page stays starts (t, none) = (t, false)
fired page stays starts (t, some zero) = (fire_renewal page false starts t, starts)
fired page stays starts (t, some (suc delay)) =
    (fire_renewal page (not stays) starts t, stays && starts)

-- The exchange tells the provider of the user before the callback goes on.
abbrev pub adopt_exchanged : Arrival → Result Text SignedIn → Tab → Tab × Bool
adopt_exchanged a (err e) t = (t, false)
adopt_exchanged a (ok s) t = fired a.page a.stays a.starts (renew a.page (on_loaded false s.user t))

-- The load of the callback page, and whether it leaves the page again.
unfoldable pub arrive : Arrival → Tab → Tab × Bool
arrive a t =
    if is_no_session a.error
    then (resolve_anonymous (new_page t), false)
    else adopt_exchanged a a.exchange (new_page t)

-- A page that the user opens: its recovery, and the timer of the session that it has found, if any.
unfoldable pub open_page :
    (User → ℕ → Bool) → Page → Result Text (Option User) → Run → Bool → Tab → Tab
open_page expired page answer run stays t =
    (fired page stays run.starts (renew page (recover expired page answer run (new_page t)))).0

-- Where `navigate` goes behind a callback, if anywhere.
abbrev pub land : CallbackResult → Option Text → Text → Text → Option Text
land signed_in return_to base_path default_path =
    some (or_else (route_path_of return_to base_path) default_path)
land no_session return_to base_path default_path = some default_path
land failed return_to base_path default_path = none

unfoldable pub auth_callback : Option Text → Result Text SignedIn → Text → Text → Option Text
auth_callback error exchange base_path default_path =
    let outcome = handle_callback error exchange in
    land outcome.result outcome.return_to base_path default_path

-- The callbacks that follow on one another without the user, as long as each leaves the page.
unfoldable pub journey : List Arrival → Tab → Tab
journey [] t = t
journey (a ∷ arrivals) t =
    let rest = journey arrivals (arrive a t).0 in if (arrive a t).1 then rest else (arrive a t).0
