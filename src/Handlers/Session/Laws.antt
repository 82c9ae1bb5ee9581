-- ===== src/Handlers/Session/Laws.antt =====
-- What a session guards: `enter` and `with_credentials` of handlers/handlers.go.
use goldfish.Prelude.{◌≡◌, refl, Option, none, some, List, arith}
use goldfish.Types.{AuthInfo}
use goldfish.World.{World, Request, Result, ok, err, Effect}
use goldfish.Exec.{State, exit, Exec, gets, modify, on_error, defer, ◌>>=◌, ◌>>◌}
use goldfish.Vault.Auth.{no_credentials, clear}
use goldfish.Handlers.Responses.{Response}
use goldfish.Handlers.Session.{login_first, cookie_max_age, get_session, enter, with_credentials}

module _ ⦃w : World⦄ where
  abbrev decoded : Result AuthInfo → Option AuthInfo
  decoded (ok auth) = some auth
  decoded (err _) = none

  -- The credentials in the cookie of a request behind these effects, if it has one that this server
  -- made and that is not too old.
  abbrev pub session : Request → List Effect → Option AuthInfo
  session r t = elim r.cookie [
    | none ↦ none
    | some value ↦ decoded (w.decode_cookie cookie_max_age (w.unix_time t) value)
  ]

  pub enter_rejected :
      (r : Request) (s : State) → session r s.trace ≡ none → enter r s ≡ (exit login_first, s)
  unfolding enter get_session on_error ◌>>=◌ modify gets
  enter_rejected r s h = ground arith

  -- Behind a rejected request nothing of the handler runs.
  pub guarded_rejected :
      (r : Request) (body : Exec Response Response) (s : State)
      → session r s.trace ≡ none
      → with_credentials (enter r >> body) s
        ≡ (exit login_first, record s { auth = no_credentials })
  unfolding with_credentials defer modify ◌>>=◌ clear
  guarded_rejected r body s h = rw (enter_rejected r (record s { auth = no_credentials }) h)

  -- The variable `auth` is cleared on every way out.
  pub with_credentials-clears :
      (body : Exec Response Response) (s : State)
      → (with_credentials body s).1.auth ≡ no_credentials
  unfolding with_credentials defer clear modify
  with_credentials-clears body s = refl
