-- ===== src/Server/Run/Writes.antt =====
-- With which tokens PutPolicy is called while the server runs.
use goldfish.Prelude.{◌≡◌, sym, inl, inr, [], ℕ, true, false, String, List, Bool-cases}
use mathlib.Core.Path.{subst}
use goldfish.Types.{Config as Settings}
use goldfish.World.{World, Request, Client, Call, Effect, vault}
use goldfish.Exec.{State, Server, modify}
use goldfish.Exec.Keeps.{Keeps, Keeps-modify, Keeps-perform}
use goldfish.Exec.Trace.{Since, none_yet, effect}
use goldfish.Vault.Settings.{install}
use goldfish.Vault.Start.{Tick, Workers, wake}
use goldfish.Vault.Start.Laws.{wake-keeps}
use goldfish.Server.{Route, handle, serve}
use goldfish.Server.Access.{is_public}
use goldfish.Server.Run.Idle.{writes_policy, IsIdle}
use goldfish.Server.Run.Still.{public-idle, Keeps-round}
use goldfish.Trust.Root.{IsRootToken}
use goldfish.Trust.Calls.{
  Allowed, connects, as_user, as_server, as_nobody, as_root, compares, fetches, posts, is_user_call,
  IsServerUse, reads_cubbyhole, writes_cubbyhole, deletes_cubbyhole, decrypts, wraps, unwraps,
  IsRootGeneration, status, init, update, cancel, IsRootUse,
}
use goldfish.Trust.Serve.{serve-IsTrusted}

module _ ⦃w : World⦄ where
  -- If this effect is a call of PutPolicy, then with a generated root token.
  abbrev pub OnlyRoot : Effect → Type 0
  OnlyRoot (vault c (Call.put_policy _ _)) = IsRootToken c.token
  OnlyRoot _ = Unit {0}

  idle-OnlyRoot : (e : Effect) → writes_policy e ≡ false → OnlyRoot e
  idle-OnlyRoot (vault c (Call.put_policy _ _)) h = cc
  idle-OnlyRoot _ h = tt

  -- The effects since some point of the trace.
  pub record HasOnlyRoot (base : List Effect) (s : State) : Type 0 where
    pub writes : Since (λ e _. OnlyRoot e) base s.trace

  user-OnlyRoot : (c : Client) (q : Call) → is_user_call q ≡ true → OnlyRoot (vault c q)
  user-OnlyRoot c (Call.put_policy _ _) h = cc
  user-OnlyRoot c _ h = tt

  server-OnlyRoot :
      (srv : Server) (c : Client) (q : Call) → IsServerUse srv c q → OnlyRoot (vault c q)
  server-OnlyRoot srv c _ (reads_cubbyhole _ _) = tt
  server-OnlyRoot srv c _ (writes_cubbyhole _ _ _) = tt
  server-OnlyRoot srv c _ (deletes_cubbyhole _ _) = tt
  server-OnlyRoot srv c _ (decrypts _ _ _) = tt
  server-OnlyRoot srv c _ (wraps _ _) = tt
  server-OnlyRoot srv c _ (unwraps _ _) = tt

  nobody-OnlyRoot : (c : Client) (q : Call) → IsRootGeneration q → OnlyRoot (vault c q)
  nobody-OnlyRoot c _ status = tt
  nobody-OnlyRoot c _ (init _) = tt
  nobody-OnlyRoot c _ (update _ _) = tt
  nobody-OnlyRoot c _ cancel = tt

  root-OnlyRoot : (c : Client) (q : Call) → IsRootToken c.token → IsRootUse q → OnlyRoot (vault c q)
  root-OnlyRoot c (Call.put_policy _ _) t h = t
  root-OnlyRoot c _ t h = tt

  Allowed-OnlyRoot : (srv : Server) (user : String) (e : Effect) → Allowed srv user e → OnlyRoot e
  Allowed-OnlyRoot srv user _ (connects b) = tt
  Allowed-OnlyRoot srv user _ (as_user c q h u) = user-OnlyRoot c q u
  Allowed-OnlyRoot srv user _ (as_server c q k) = server-OnlyRoot srv c q k
  Allowed-OnlyRoot srv user _ (as_nobody c q h g) = nobody-OnlyRoot c q g
  Allowed-OnlyRoot srv user _ (as_root c q t k) = root-OnlyRoot c q t k
  Allowed-OnlyRoot srv user _ (compares repo b h) = tt
  Allowed-OnlyRoot srv user _ (fetches repo path h) = tt
  Allowed-OnlyRoot srv user _ (posts url type body) = tt

module _ ⦃w : World⦄ {base : List Effect} where
  HasOnlyRoot-IsIdle : IsIdle (HasOnlyRoot base)
  HasOnlyRoot-IsIdle = record {
    acts = λ e h. Keeps-perform e λ s k. record { writes = effect (idle-OnlyRoot e h) k.writes };
    moves =
        λ s t e f k. record { writes = subst (Since (λ e _. OnlyRoot e) base) (sym f) k.writes };
  }

  installs :
      (c : Settings) (hash : ℕ) → Keeps {E = String} (HasOnlyRoot base) (modify (install c hash))
  installs c hash = Keeps-modify _ λ s h. record { writes = h.writes }

  pub wake-HasOnlyRoot :
      (path : String) (t : Tick) (ws : Workers)
      → HasOnlyRoot base ws.state
      → HasOnlyRoot base (wake path t ws).state
  wake-HasOnlyRoot path t ws h =
      wake-keeps {P = HasOnlyRoot base} path t ws (Keeps-round HasOnlyRoot-IsIdle installs path t) h

  after :
      (srv : Server) (user : String) (mid now : List Effect)
      → Since (λ e _. OnlyRoot e) base mid
      → Since (λ e _. Allowed srv user e) mid now
      → Since (λ e _. OnlyRoot e) base now
  after srv user mid now h none_yet = h
  after srv user mid now h (effect {e} {t} a k) =
      effect (Allowed-OnlyRoot srv user e a) (after srv user mid t h k)

  pub serve-HasOnlyRoot :
      (route : Route) (r : Request) (s : State)
      → HasOnlyRoot base s
      → HasOnlyRoot base (serve route r s).1
  unfolding serve
  serve-HasOnlyRoot route r s h = elim (Bool-cases (is_public route)) [
    | inl p ↦
        let k : HasOnlyRoot base (handle route r (record s { headers = [] })).1 =
          public-idle HasOnlyRoot-IsIdle route r s p (record { writes = h.writes }) in
        record { writes = k.writes }
    | inr p ↦ record {
      writes = after s.server _ s.trace _ h.writes (serve-IsTrusted route r s p).allowed;
    }
  ]
