-- ===== src/Auth/Steps.antt =====
-- What happens in which order: frontend/src/hooks/useAuth.ts. The pages, and with them all requests
-- but the probe, are shown only to a signed-in account, and the login form only when nobody is; but
-- the answer to a request and the end of a job come at any time, also after a sign-out and under
-- another account.
use rmm_rxf_sys_de.Base.{ℕ, ◌≡◌, Bool, true, false, some, is_some, List, ◌∷◌, ◌++◌}
use rmm_rxf_sys_de.Fleet.People.{Account}
use rmm_rxf_sys_de.Auth.{
  AuthStatus, loading, authed, anon, Request, Follower, Session, Answer, on_probe, unmount,
  on_login, on_logout, on_unauthorized, on_ask, on_ask_again, on_data, on_follow, on_result,
}
use rmm_rxf_sys_de.Auth.Private.{is_kept, IsPrivate}

pub data Step : Session → Session → Type 0 where
  probe : (s : Session) (a : Answer) → s.probing ≡ true → Step s (on_probe a s)
  login : (s : Session) (u : Account) → s.status ≡ anon → Step s (on_login u s)
  logout : (s : Session) → s.status ≡ authed → Step s (on_logout s)
  unauthorized : (s : Session) → s.status ≡ authed → Step s (on_unauthorized s)
  asks : (s : Session) (u : Account) → s.user ≡ some u → Step s (on_ask u s)
  asks_again :
      (s : Session) (u : Account) (serial : ℕ)
      → s.user ≡ some u
      → is_kept serial s.cache ≡ true
      → Step s (on_ask_again u serial s)
  data_came :
      (s : Session) (xs : List Request) (r : Request) (ys : List Request)
      → s.requests ≡ xs ++ r ∷ ys
      → Step s (on_data xs r ys s)
  follows : (s : Session) (u : Account) → s.user ≡ some u → Step s (on_follow u s)
  result_came :
      (s : Session) (xs : List Follower) (f : Follower) (ys : List Follower)
      → s.followers ≡ xs ++ f ∷ ys
      → Step s (on_result f s)
  leave : (s : Session) → Step s (unmount s)

pub data Reach (s : Session) : Session → Type 0 where
  here : Reach s s
  next : {t u : Session} → Reach s t → Step t u → Reach s u

abbrev is_loading : AuthStatus → Bool
is_loading loading = true
is_loading _ = false

abbrev pub is_authed : AuthStatus → Bool
is_authed authed = true
is_authed _ = false

record IsValid (s : Session) : Type 0 where
  private : IsPrivate s
  known : is_some s.user ≡ is_authed s.status
  first : s.probing ≡ true → is_loading s.status ≡ true
