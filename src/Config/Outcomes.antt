-- ===== src/Config/Outcomes.antt =====
-- When the steps of config/config.go end in a value.
use goldfish.Prelude.{
  ◌≡◌, ◌≢◌, ◌⊎◌, ◌↔◌, arith, refl, sym, inl, inr, String, Bool, true, false, Bool-cases, ◌||◌,
  Option, none, some, List, [], ◌∷◌, All, ◌==◌, eq_iff, if◌then◌else◌,
}
use mathlib.Core.Bool.{or-true}
use mathlib.Core.Path.{subst}
use mathlib.Core.List.{Memᴰ}
use goldfish.World.{Result, ok, err}
use goldfish.Config.{
  Node, object_list, object_type, other, Items, Item, items, Outcome, parsed, failed, blocked,
  crashed, lift, on_error, ◌>>=◌,
}
use goldfish.Config.Parse.{
  is_valid, first_key, check_items, check_hcl_keys, section_key, required, switch,
}

module _ {A B : Type 0} where
  pub bind-parsed :
      (m : Outcome A) (f : A → Outcome B) (b : B)
      → (m >>= f) ≡ parsed b ↔ (a : A) × (m ≡ parsed a) × (f a ≡ parsed b)
  unfolding ◌>>=◌
  bind-parsed m f b = (there m, λ (a, e, h). rw (e) h)
    where
      there : (n : Outcome A) → (n >>= f) ≡ parsed b → (a : A) × (n ≡ parsed a) × (f a ≡ parsed b)
      there (parsed a) h = (a, refl, h)
      there (failed e) h = cc
      there blocked h = cc
      there crashed h = cc

  -- A chain that ends in a value has had one from its first step.
  pub from_bind :
      {C : Type 0} (m : Outcome A) (f : A → Outcome B) (b : B)
      → (m >>= f) ≡ parsed b
      → ((a : A) → m ≡ parsed a → f a ≡ parsed b → C)
      → C
  from_bind m f b h k = let (a, e, q) = (bind-parsed m f b).0 h in k a e q

  pub to_bind :
      (m : Outcome A) (f : A → Outcome B) (b : B) (a : A)
      → m ≡ parsed a
      → f a ≡ parsed b
      → (m >>= f) ≡ parsed b
  to_bind m f b a e q = (bind-parsed m f b).1 (a, e, q)

module _ {A : Type 0} where
  pub on_error-parsed :
      (f : String → String) (m : Outcome A) (a : A) → on_error f m ≡ parsed a ↔ m ≡ parsed a
  unfolding on_error
  on_error-parsed f m a = (there m, λ e. rw (e) refl)
    where
      there : (n : Outcome A) → on_error f n ≡ parsed a → n ≡ parsed a
      there (parsed b) h = h
      there (failed e) h = cc
      there blocked h = h
      there crashed h = h

  pub parsed-inj : (a b : A) → parsed a ≡ parsed b → a ≡ b
  parsed-inj a b h = cc

  pub lift-parsed : (r : Result A) (a : A) → lift r ≡ parsed a ↔ r ≡ ok a
  lift-parsed (ok b) a = (λ h. cc, λ h. cc)
  lift-parsed (err e) a = (λ h. cc, λ h. cc)

  pub if-parsed :
      (b : Bool) (m n : Outcome A) (a : A)
      → ((x : A) → n ≢ parsed x)
      → (if b then m else n) ≡ parsed a
      → (b ≡ true) × (m ≡ parsed a)
  if-parsed true m n a k h = (refl, h)
  if-parsed false m n a k h = absurd (k a h)

-- The first key of an item is the text `k`.
abbrev pub IsKey : String → List (Option String) → Type 0
IsKey k keys = (rest : List (Option String)) × (keys ≡ some k ∷ rest)

-- The first key of an item is one of these.
abbrev pub HasKey : List String → Item → Type 0
HasKey valid item = (k : String) × IsKey k item.keys × Memᴰ k valid

pub first_key-parsed :
    (keys : List (Option String)) (k : String) → first_key keys ≡ parsed k ↔ IsKey k keys
unfolding first_key
first_key-parsed keys k = (there keys, λ (rest, e). rw (e) refl)
  where
    there : (ks : List (Option String)) → first_key ks ≡ parsed k → IsKey k ks
    there [] h = cc
    there (none ∷ ks) h = cc
    there (some x ∷ ks) h = (ks, cc)

-- a test in front of others, as in the loop over the valid keys
or_iff :
    (v key : String) (vs : List String) (b : Bool)
    → b ≡ true ↔ Memᴰ key vs
    → (v == key || b) ≡ true ↔ Memᴰ key (v ∷ vs)
or_iff v key vs b h = (there, back)
  where
    there : (v == key || b) ≡ true → Memᴰ key (v ∷ vs)
    there t = elim (Bool-cases (v == key)) [
      | inl e ↦ Memᴰ.head (sym ((eq_iff _ _).0 e))
      | inr e ↦ Memᴰ.tail (h.0 (subst (λ x. (x || b) ≡ true) e t))
    ]

    back : Memᴰ key (v ∷ vs) → (v == key || b) ≡ true
    back (Memᴰ.head e) = rw ((eq_iff v key).1 (sym e)) refl
    back (Memᴰ.tail t) = rw (h.1 t) (or-true (v == key))

pub is_valid-mem : (valid : List String) (key : String) → is_valid valid key ≡ true ↔ Memᴰ key valid
unfolding is_valid
is_valid-mem [] key = (λ h. cc, λ h. elim h [ ])
is_valid-mem (v ∷ vs) key = or_iff v key vs (is_valid vs key) (is_valid-mem vs key)

-- An item that passes the loop.
checked-key :
    (valid : List String) (item : Item) (next : Outcome Unit)
    → (first_key item.keys >>= λ key. if is_valid valid key then next else blocked) ≡ parsed tt
      ↔ HasKey valid item × (next ≡ parsed tt)
unfolding ◌>>=◌
checked-key valid item next = (there, back)
  where
    there :
        (first_key item.keys >>= λ key. if is_valid valid key then next else blocked) ≡ parsed tt
        → HasKey valid item × (next ≡ parsed tt)
    there h =
        let (k, e, q) = (bind-parsed (first_key item.keys) _ tt).0 h in
        let (v, n) = if-parsed (is_valid valid k) next blocked tt (λ x r. cc) q in
        ((k, (first_key-parsed _ k).0 e, (is_valid-mem valid k).0 v), n)

    back :
        HasKey valid item × (next ≡ parsed tt)
        → (first_key item.keys >>= λ key. if is_valid valid key then next else blocked) ≡ parsed tt
    back ((k, e, v), n) = rw ((first_key-parsed _ k).1 e) (rw ((is_valid-mem valid k).1 v) n)

pub check_items-parsed :
    (valid : List String) (list : List Item)
    → check_items valid list ≡ parsed tt ↔ All (HasKey valid) list
unfolding check_items
check_items-parsed valid [] = (λ h. tt, λ h. refl)
check_items-parsed valid (item ∷ rest) = (
  λ h. let (k, n) = (checked-key valid item _).0 h in (k, (check_items-parsed valid rest).0 n),
  λ (k, n). (checked-key valid item _).1 (k, (check_items-parsed valid rest).1 n),
)

-- An object whose items have only these keys.
pub record HasKeys (node : Node) (valid : List String) : Type 0 where
  pub list : Items
  pub is_object : (node ≡ object_list list) ⊎ (node ≡ object_type list)
  pub valid_keys : All (HasKey valid) (items list)

pub check_hcl_keys-parsed :
    (node : Node) (valid : List String) → check_hcl_keys node valid ≡ parsed tt ↔ HasKeys node valid
unfolding check_hcl_keys
check_hcl_keys-parsed node valid = (there node, back)
  where
    there : (n : Node) → check_hcl_keys n valid ≡ parsed tt → HasKeys n valid
    there (object_list list) h = record {
      list = list;
      is_object = inl refl;
      valid_keys = (check_items-parsed valid (items list)).0 h;
    }
    there (object_type list) h = record {
      list = list;
      is_object = inr refl;
      valid_keys = (check_items-parsed valid (items list)).0 h;
    }
    there (other type text) h = cc

    back : HasKeys node valid → check_hcl_keys node valid ≡ parsed tt
    back k = elim k.is_object [
      | inl e ↦ rw (e) ((check_items-parsed valid (items k.list)).1 k.valid_keys)
      | inr e ↦ rw (e) ((check_items-parsed valid (items k.list)).1 k.valid_keys)
    ]

-- The key of a section: its own, and else the section's name.
abbrev pub IsSectionKey : String → List (Option String) → String → Type 0
IsSectionKey section keys k = ((keys ≡ []) × (k ≡ section)) ⊎ IsKey k keys

pub section_key-parsed :
    (section : String) (keys : List (Option String)) (k : String)
    → section_key section keys ≡ parsed k ↔ IsSectionKey section keys k
unfolding section_key
section_key-parsed section keys k = (there keys, back)
  where
    there :
        (ks : List (Option String)) → section_key section ks ≡ parsed k → IsSectionKey section ks k
    there [] h = inl (refl, cc)
    there (x ∷ ks) h = inr ((first_key-parsed (x ∷ ks) k).0 h)

    back : IsSectionKey section keys k → section_key section keys ≡ parsed k
    back (inl (e, q)) = rw (e, q) refl
    back (inr (rest, e)) = rw (e) ((first_key-parsed (some k ∷ rest) k).1 (rest, refl))

pub required-parsed :
    (v : Option String) (e a : String) → required v e ≡ parsed a ↔ (v ≡ some a) × (a ≢ "")
unfolding required
required-parsed none e a = (λ h. cc, λ (h, n). cc)
required-parsed (some v) e a =
    (λ h. ground (arith, eq_iff v ""), λ (h, n). ground (arith, eq_iff v ""))

-- A flag: `1` sets it; `0`, or no value, does not.
abbrev pub IsFlag : Option String → Bool → Type 0
IsFlag v b =
    ((v ≡ none) × (b ≡ false)) ⊎ ((v ≡ some "0") × (b ≡ false)) ⊎ ((v ≡ some "1") × (b ≡ true))

pub switch-parsed :
    (v : Option String) (e : String) (b : Bool) → switch false v e ≡ parsed b ↔ IsFlag v b
unfolding switch
switch-parsed none e b = (λ h. inl (refl, cc), λ h. ground arith)
switch-parsed (some v) e b = (
  λ h. ground (arith, eq_iff v "1", eq_iff v "0"),
  λ h. elim h [
    | inl (q, r) ↦ cc
    | inr (inl (q, r)) ↦ let z : v ≡ "0" = cc in rw (z, r) refl
    | inr (inr (q, r)) ↦ let z : v ≡ "1" = cc in rw (z, r) refl
  ],
)
