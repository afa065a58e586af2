-- ===== src/UiAuth.antt =====
-- packages/ui-auth/src: the login of the user interfaces, which renews and recovers a session by leaving
-- the page. A tab is what one browser tab keeps: its session storage, what the provider of
-- AuthContext.tsx holds in memory, and the redirects that it has started, in order. What oidc-client-ts
-- answers comes with the events of a page.
pub mod Callback
pub mod Journey
pub mod Endless
pub mod Landing
use iot_miniservers.Prelude.{
  ℕ, zero, suc, ◌+◌, ◌-◌, ◌*◌, Bool, true, false, not, ◌&&◌, Option, none, some, List, [], ◌∷◌,
  ◌++◌, Text, nat_eqb, leb, is_some, or_else, if◌then◌else◌,
}
use iot_miniservers.Prelude.Result.{Result, ok, err}

pub data AuthState : Type 0 where
  loading : AuthState
  authenticated : AuthState
  anonymous : AuthState

-- `expires_at` is in seconds.
pub record User : Type 0 where
  pub access_token : Text
  pub expires_at : Option ℕ

-- A call of the storage may throw. `sso_attempted` says that the item is there and is "1".
pub record SessionStorage : Type 0 where
  pub reads : Bool
  pub writes : Bool
  pub removes : Bool
  pub sso_attempted : Bool
  pub renew_attempts : Option ℕ

-- A redirect to the identity provider: whether `prompt` is "none", and the path to come back to.
pub data Redirect : Type 0 where
  sign_in : Bool → Text → Redirect
  sign_out : Redirect

pub record Tab : Type 0 where
  pub storage : SessionStorage
  pub user : Option User
  pub state : AuthState
  pub redirects : List Redirect

-- The page at a moment: whether its query holds a code or an error, its pathname with its query, and the
-- time in milliseconds.
pub record Page : Type 0 where
  pub handling_callback : Bool
  pub location : Text
  pub now : ℕ

abbrev pub max_futile_renewals : ℕ
max_futile_renewals = 2

abbrev pub renew_skew_ms : ℕ
renew_skew_ms = 60000

abbrev pub futile_renewals : SessionStorage → ℕ
futile_renewals s = if s.reads then or_else s.renew_attempts 0 else max_futile_renewals

abbrev pub record_futile_renewal : ℕ → SessionStorage → SessionStorage
record_futile_renewal zero s = if s.removes then record s { renew_attempts = none } else s
record_futile_renewal (suc n) s = if s.writes then record s { renew_attempts = some (suc n) } else s

abbrev pub sso_already_attempted : SessionStorage → Bool
sso_already_attempted s = if s.reads then s.sso_attempted else true

abbrev pub remember_sso_attempt : Bool → Tab → Tab
remember_sso_attempt true t =
    if t.storage.writes then record t { storage = record t.storage { sso_attempted = true } } else t
remember_sso_attempt false t =
    if t.storage.removes
    then record t { storage = record t.storage { sso_attempted = false } }
    else t

-- `signinRedirect` and `signoutRedirect`; one that cannot be started leaves the page where it is.
abbrev pub leave_for : Bool → Redirect → Tab → Tab
leave_for starts r t = if starts then record t { redirects = t.redirects ++ r ∷ [] } else t

abbrev pub state_of : Option User → AuthState
state_of none = anonymous
state_of (some u) = authenticated

abbrev pub adopt : Bool → Option User → Tab → Tab
adopt cancelled next t = if cancelled then t else record t { user = next; state = state_of next }

-- One run of the effect: whether it was discarded by the time that `getUser` answers, and by the time
-- that a redirect has failed, and whether a redirect can be started.
pub record Run : Type 0 where
  pub cancelled : Bool
  pub cancelled_later : Bool
  pub starts : Bool

abbrev pub is_current : (User → ℕ → Bool) → ℕ → Option User → Bool
is_current expired now none = false
is_current expired now (some u) = not (expired u now)

abbrev pub ask_idp : Page → Run → Tab → Tab
ask_idp page run t =
    let t' = leave_for run.starts (sign_in true page.location) (remember_sso_attempt true t) in
    if run.starts then t' else adopt run.cancelled_later none t'

abbrev pub recover_from : (User → ℕ → Bool) → Page → Result Text (Option User) → Run → Tab → Tab
recover_from expired page (err e) run t = adopt run.cancelled none t
recover_from expired page (ok existing) run t =
    if is_current expired page.now existing
    then adopt run.cancelled existing (remember_sso_attempt false t)
    else if not (sso_already_attempted t.storage) && not run.cancelled
    then ask_idp page run t
    else adopt run.cancelled none t

-- The first effect of the provider. `expired` is the user's own test, and the answer is `getUser`'s.
unfoldable pub recover : (User → ℕ → Bool) → Page → Result Text (Option User) → Run → Tab → Tab
recover expired page answer run t =
    if page.handling_callback then t else recover_from expired page answer run t

abbrev pub on_loaded : Bool → User → Tab → Tab
on_loaded cancelled next t = adopt cancelled (some next) (remember_sso_attempt false t)

abbrev pub on_unloaded : Bool → Tab → Tab
on_unloaded cancelled t = adopt cancelled none t

abbrev pub give_up : Tab → Tab
give_up t = record t { storage = record_futile_renewal 0 t.storage; user = none; state = anonymous }

abbrev pub renew_late : Tab → Tab × Option ℕ
renew_late t =
    let attempts = futile_renewals t.storage in
    if leb max_futile_renewals attempts
    then (give_up t, none)
    else (record t { storage = record_futile_renewal (suc attempts) t.storage }, some 0)

abbrev pub renew_until : ℕ → ℕ → Tab → Tab × Option ℕ
renew_until expires_at now t =
    if nat_eqb expires_at 0
    then (t, none)
    else if leb (expires_at * 1000) (now + renew_skew_ms)
    then renew_late t
    else (
      record t { storage = record_futile_renewal 0 t.storage },
      some (expires_at * 1000 - (now + renew_skew_ms)),
    )

abbrev pub renew_user : Page → Option User → Tab → Tab × Option ℕ
renew_user page none t = (t, none)
renew_user page (some u) t =
    if page.handling_callback
    then (t, none)
    else elim u.expires_at [ none ↦ (t, none) | some e ↦ renew_until e page.now t ]

abbrev pub is_authenticated : AuthState → Bool
is_authenticated authenticated = true
is_authenticated loading = false
is_authenticated anonymous = false

-- The second effect of the provider, with the delay of the timer that it arms.
unfoldable pub renew : Page → Tab → Tab × Option ℕ
renew page t = if is_authenticated t.state then renew_user page t.user t else (t, none)

-- What the timer does.
abbrev pub fire_renewal : Page → Bool → Bool → Tab → Tab
fire_renewal page cancelled starts t =
    if cancelled then t else leave_for starts (sign_in true page.location) t

abbrev pub login : Page → Bool → Tab → Tab
login page starts t = leave_for starts (sign_in false page.location) (remember_sso_attempt false t)

abbrev pub logout : Bool → Tab → Tab
logout starts t = leave_for starts sign_out (remember_sso_attempt true t)

abbrev pub unless_authenticated : AuthState → AuthState
unless_authenticated authenticated = authenticated
unless_authenticated loading = anonymous
unless_authenticated anonymous = anonymous

abbrev pub resolve_anonymous : Tab → Tab
resolve_anonymous t = record t { user = none; state = unless_authenticated t.state }

abbrev pub access_token_of : (User → ℕ → Bool) → ℕ → Option User → Option Text
access_token_of expired now none = none
access_token_of expired now (some u) = if not (expired u now) then some u.access_token else none

abbrev pub get_access_token : (User → ℕ → Bool) → ℕ → Tab → Option Text
get_access_token expired now t = access_token_of expired now t.user
