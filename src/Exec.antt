-- ===== src/Exec.antt =====
-- How the program's functions run. A function that may return an error, answer the request early
-- or panic is an action of `Exec E`, where `E` is what it leaves with: an error's text, or a
-- response. What was done before it left stays done.
pub mod Fails
pub mod Ends
pub mod Trace
pub mod Keeps
pub mod Runs
use goldfish.Prelude.{ℕ, String, Bool, true, false, Option, none, some, List, ◌∷◌}
use goldfish.Types.{AuthInfo, Config}
use goldfish.World.{World, Result, ok, err, Client, Effect, Answer}

-- The package variables of vault/vault.go and vault/config.go.
pub record Server : Type 0 where
  pub vault_address : String
  pub vault_skip_tls : Bool
  pub vault_token : String
  pub vault_client : Client
  pub config : Config
  pub config_hash : ℕ
  pub github_current_commit : String

-- `auth` is the variable of the handler that runs; the headers are those of its response, newest
-- first.
pub record State : Type 0 where
  pub server : Server
  pub auth : AuthInfo
  pub headers : List (String × String)
  pub trace : List Effect

pub data Flow {ℓ} (E A : Type ℓ) : Type ℓ where
  done : A → Flow E A
  exit : E → Flow E A
  panic : Flow E A

abbrev pub Exec : Type 0 → Type 0 → Type 0
Exec E A = State → Flow E A × State

module _ {E A : Type 0} where
  unfoldable pub pure : A → Exec E A
  pure a s = (done a, s)

  -- return an error, or answer the request
  unfoldable pub leave : E → Exec E A
  leave e s = (exit e, s)

  -- a nil pointer, a failed assertion or an index out of range
  unfoldable pub crash : Exec E A
  crash s = (panic, s)

  -- a pointer that is read without a test
  unfoldable pub deref : Option A → Exec E A
  unfolding pure crash
  deref none = crash
  deref (some a) = pure a

  -- `if !ok { return e }`
  unfoldable pub expect : Option A → E → Exec E A
  unfolding pure leave
  expect none e = leave e
  expect (some a) e = pure a

  unfoldable pub gets : (State → A) → Exec E A
  gets f s = (done (f s), s)

module _ {E : Type 0} where
  unfoldable pub modify : (State → State) → Exec E Unit
  modify f s = (done tt, f s)

  -- `if !b { return e }`
  unfoldable pub require : Bool → E → Exec E Unit
  unfolding pure leave
  require true e = pure tt
  require false e = leave e

module _ {E A B : Type 0} where
  abbrev pub continue : Flow E A → (A → Exec E B) → Exec E B
  continue (done a) f s = f a s
  continue (exit e) f s = (exit e, s)
  continue panic f s = (panic, s)

  infixl 10 ◌>>=◌ ◌>>◌
  unfoldable pub ◌>>=◌ : Exec E A → (A → Exec E B) → Exec E B
  ◌>>=◌ m f s = let (r, s') = m s in continue r f s'

  abbrev pub ◌>>◌ : Exec E A → Exec E B → Exec E B
  m >> n = m >>= λ _. n

module _ {E F A : Type 0} where
  abbrev pub redirect : (E → F) → Flow E A → Flow F A
  redirect f (done a) = done a
  redirect f (exit e) = exit (f e)
  redirect f panic = panic

  -- `if err != nil { return f(err) }` behind a call
  unfoldable pub on_error : (E → F) → Exec E A → Exec F A
  on_error f m s = let (r, s') = m s in (redirect f r, s')

module _ {E F A : Type 0} where
  abbrev pub outcome : Flow E A → Flow F Unit → Flow E A
  outcome r panic = panic
  outcome r _ = r

  -- `defer cleanup`, with the rest of the function. The cleanup runs on every way out, a panic too,
  -- and its own error is dropped.
  unfoldable pub defer : Exec F Unit → Exec E A → Exec E A
  defer cleanup m s = let (r, s') = m s in let (q, s'') = cleanup s' in (outcome r q, s'')

  -- `v, err := f()` where the code goes on in both cases
  abbrev pub caught : Flow E A → Flow F (Option A)
  caught (done a) = done (some a)
  caught (exit e) = done none
  caught panic = panic

  unfoldable pub try : Exec E A → Exec F (Option A)
  try m s = let (r, s') = m s in (caught r, s')

abbrev pub lift_result : {A : Type 0} → Result A → Flow String A
lift_result (ok a) = done a
lift_result (err e) = exit e

unfoldable pub lift : {A : Type 0} → Result A → Exec String A
lift r s = (lift_result r, s)

module _ ⦃w : World⦄ where
  -- One effect. It is recorded whether or not it succeeds.
  unfoldable pub perform : (e : Effect) → Exec String (Answer e)
  perform e s = (lift_result (w.answer s.trace e), record s { trace = e ∷ s.trace })
