-- ===== src/Config.antt =====
-- config/config.go: the deployment configuration, and what its parser calls. A syntax tree of HCL
-- is read where `checkHCLKeys` reads it; the rest is the business of hashicorp/hcl.
pub mod Parse
pub mod Outcomes
pub mod Spec
pub mod Sections
pub mod Correct
pub mod Blocks
pub mod Dev
pub mod Setup
pub mod Wrapped
use goldfish.Prelude.{ℕ, String, Bool, Option, List, [], ◌∷◌}
use Prim.Native.Char.{Char}
use goldfish.World.{Client, Result, ok, err}

pub record ListenerConfig : Type 0 where
  pub type : String
  pub address : String
  pub tls_disable : Bool
  pub tls_cert_file : String
  pub tls_key_file : String
  pub tls_autoredirect : Bool

pub record VaultConfig : Type 0 where
  pub type : String
  pub address : String
  pub tls_skip_verify : Bool
  pub runtime_config : String
  pub approle_login : String
  pub approle_id : String

pub record Config : Type 0 where
  pub listener : ListenerConfig
  pub vault : VaultConfig

mutual
  -- `ast.Node`: `*ast.ObjectList`, `*ast.ObjectType`, or a node of another type, by the type's name
  -- and its text
  pub data Node : Type 0 where
    object_list object_type : Items → Node
    other : String → String → Node

  -- Of each `ast.ObjectItem`: the values of its keys, its value, and the line of its assignment. A
  -- key is a text where its token's value is one.
  pub data Items : Type 0 where
    nil : Items
    cons : List (Option String) → Node → ℕ → Items → Items

pub record Item : Type 0 where
  pub keys : List (Option String)
  pub val : Node
  pub line : ℕ

abbrev pub items : Items → List Item
items nil = []
items (cons keys val line rest) = record { keys = keys; val = val; line = line } ∷ items rest

pub record Url : Type 0 where
  pub scheme : String
  -- `url.String()`
  pub text : String

-- hashicorp/hcl, what is called of Go's library for files and addresses, and Vault's client.
pub record Library : Type 0 where
  -- `obj.Node` of hcl.Parse
  pub parse : String → Result Node
  -- hcl.DecodeObject into a `Config`. Its fields are tagged `-`, so that none of them is written.
  pub decode_config : Node → Result (Unit {0})
  -- hcl.DecodeObject into a `map[string]string`, which holds each key once
  pub decode_map : Node → Result (List (String × String))
  -- `list.Filter` with one key
  pub filter : String → List Item → List Item
  -- ioutil.ReadFile, url.Parse, unicode.ToLower
  pub read_file : String → Result String
  pub parse_url : String → Result Url
  pub lower : Char → Char
  -- what api.NewClient makes of api.DefaultConfig, which reads the environment
  pub default_client : Client

-- How a function of config.go ends. A send on a channel from which nobody receives never ends.
pub data Outcome (A : Type 0) : Type 0 where
  parsed : A → Outcome A
  failed : String → Outcome A
  blocked crashed : Outcome A

module _ {A B : Type 0} where
  infixl 10 ◌>>=◌ ◌>>◌
  unfoldable pub ◌>>=◌ : Outcome A → (A → Outcome B) → Outcome B
  parsed a >>= f = f a
  failed e >>= f = failed e
  blocked >>= f = blocked
  crashed >>= f = crashed

  abbrev pub ◌>>◌ : Outcome A → Outcome B → Outcome B
  m >> n = m >>= λ _. n

module _ {A : Type 0} where
  abbrev pub lift : Result A → Outcome A
  lift (ok a) = parsed a
  lift (err e) = failed e

  -- `if err != nil { return f(err) }` behind a call
  unfoldable pub on_error : (String → String) → Outcome A → Outcome A
  on_error f (parsed a) = parsed a
  on_error f (failed e) = failed (f e)
  on_error f blocked = blocked
  on_error f crashed = crashed
