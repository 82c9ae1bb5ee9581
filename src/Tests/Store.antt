-- ===== src/Tests/Store.antt =====
-- A world whose cubbyhole stores what is written to it.
use Prim.Native.Char.{Char, code}
use mathlib.Core.Bool.{and-true}
use mathlib.Core.Path.{subst}
use goldfish.Prelude.{
  ◌≡◌, ◌∙◌, refl, sym, ap, nat_eq, String, ◌==◌, ◌&&◌, false, Option, none, some, List, [], ◌∷◌,
  pos, if◌then◌else◌,
}
use goldfish.Prelude.Text.{is_space}
use goldfish.Json.{Dict, str, num}
use goldfish.Types.{PolicyRequest}
use goldfish.World.{World, Result, ok, err, Secret, Effect, Answer, Call, vault}
use goldfish.Handlers.Requests.Tokens.{is_bracket}
use goldfish.Handlers.Requests.Tokens.Pieces.{IsPlain, IsToken}
use goldfish.Handlers.Requests.Memory.{stored, contents}
use goldfish.Handlers.Requests.Pending.{ok-inj, IsReliable}
use goldfish.Tests.Sample.{sample, answer, secret}

-- what is stored at a path when nothing fails
abbrev kept : String → String → List Effect → Option Dict
kept token path [] = none
kept token path (vault c (Call.write p body) ∷ t) =
    let earlier = kept token path t in if c.token == token && p == path then body else earlier
kept token path (vault c (Call.delete p) ∷ t) =
    let earlier = kept token path t in if c.token == token && p == path then none else earlier
kept token path (_ ∷ t) = kept token path t

abbrev found : Option Dict → Option Secret
found none = none
found (some d) = some (secret d)

abbrev memory_answer : List Effect → (e : Effect) → Result (Answer e)
memory_answer t (vault c (Call.read path)) = ok (found (kept c.token path t))
memory_answer t (vault c (Call.write path body)) = ok (
    if path == "/sys/wrapping/wrap"
    then some (record { data_map = none; auth = none; wrap_token = some "abc" })
    else none)
memory_answer t (vault c (Call.delete _)) = ok none
memory_answer t (vault c Call.root_status) =
    ok (record { required = 2; nonce = "n"; encoded_root_token = "enc" })
memory_answer t e = answer t e

abbrev request_map : PolicyRequest → Dict
request_map q =
    ("Policy", str q.policy)
    ∷ ("Current", str q.current)
    ∷ ("New", str q.new)
    ∷ ("Requester", str q.requester)
    ∷ ("RequesterHash", str q.requester_hash)
    ∷ ("Required", num (pos q.required))
    ∷ ("Progress", num (pos q.progress))
    ∷ []

abbrev read_request : Option Dict → Result PolicyRequest
read_request
      (some (
        (_, str a)
        ∷ (_, str b)
        ∷ (_, str c)
        ∷ (_, str d)
        ∷ (_, str e)
        ∷ (_, num (pos m))
        ∷ (_, num (pos n))
        ∷ [])) =
    ok (record {
      policy = a;
      current = b;
      new = c;
      requester = d;
      requester_hash = e;
      required = m;
      progress = n;
    })
read_request _ = err "malformed"

abbrev pub memory : World
memory = record (sample 0) {
  answer = memory_answer;
  map_request = request_map;
  decode_request = read_request;
}

stored-kept :
    (token path : String) (t : List Effect) → stored ⦃w = memory⦄ token path t ≡ kept token path t
stored-kept token path [] = refl
stored-kept token path (vault c (Call.write p body) ∷ t) =
    rw (and-true (p == path), stored-kept token path t) refl
stored-kept token path (vault c (Call.delete p) ∷ t) =
    rw (and-true (p == path), stored-kept token path t) refl
stored-kept token path (vault c _ ∷ t) = stored-kept token path t
stored-kept token path (_ ∷ t) = stored-kept token path t

contents-found : (o : Option Dict) → contents (found o) ≡ o
contents-found none = refl
contents-found (some d) = refl

plain :
    {c : Char}
    → is_space (code c) ≡ false
    → nat_eq 59 (code c) ≡ false
    → is_bracket (code c) ≡ false
    → IsPlain c
plain a b c = record { no_space = a; no_semicolon = b; no_bracket = c }

abc_plain : IsToken "abc"
unfolding is_space
abc_plain = (plain refl refl refl, (plain refl refl refl, (plain refl refl refl, tt)))

pub memory-IsReliable : IsReliable ⦃w = memory⦄
memory-IsReliable = record {
  cubbyhole = record {
    reads = λ t c name o h.
        ap contents (sym (ok-inj _ o h))
        ∙ contents-found (kept c.token _ t)
        ∙ sym (stored-kept c.token _ t);
  };
  decodes = λ request. refl;
  wraps = λ t c body secret token h e.
      let same : token ≡ "abc" = cc in subst IsToken (sym same) abc_plain;
}
