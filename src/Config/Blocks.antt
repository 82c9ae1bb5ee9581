-- ===== src/Config/Blocks.antt =====
-- config/config.go: what an unknown key does to the start of the server.
use goldfish.Prelude.{◌≡◌, refl, inl, inr, String, Bool-cases, List, [], ◌∷◌, All}
use goldfish.World.{ok}
use goldfish.Config.{object_list, Items, Item, items, Library, blocked, ◌>>=◌}
use goldfish.Config.Parse.{
  is_valid, first_key, check_items, root_keys, parse_list, parse_root, parse_config,
}
use goldfish.Config.Outcomes.{IsKey, HasKey, is_valid-mem}

-- The item has a key, and its first is a text.
abbrev pub IsNamed : Item → Type 0
IsNamed item = (k : String) × IsKey k item.keys

check_items-blocked :
    (valid : List String) (list : List Item)
    → All IsNamed list
    → ¬ All (HasKey valid) list
    → check_items valid list ≡ blocked
unfolding check_items first_key ◌>>=◌
check_items-blocked valid [] named h = absurd (h tt)
check_items-blocked valid (item ∷ rest) ((k, (ks, e)), named) h =
    rw (e) (elim (Bool-cases (is_valid valid k)) [
      | inl v ↦ rw (v) (
          check_items-blocked valid rest named
            λ all. h ((k, (ks, e), (is_valid-mem valid k).0 v), all))
      | inr v ↦ rw (v) refl
    ])

module _ ⦃lib : Library⦄ where
  -- A text that HCL parses and decodes, whose root is an object of items with keys: when the first
  -- key of an item is neither `listener` nor `vault`, `ParseConfig` returns neither a configuration
  -- nor an error, but waits for ever to send the error on a channel that nobody reads.
  pub parse_config-blocks :
      (d : String) (list : Items)
      → lib.parse d ≡ ok (object_list list)
      → lib.decode_config (object_list list) ≡ ok tt
      → All IsNamed (items list)
      → ¬ All (HasKey root_keys) (items list)
      → parse_config d ≡ blocked
  unfolding parse_config parse_root parse_list ◌>>=◌
  parse_config-blocks d list e c named h =
      rw (e) (rw (c) (rw (check_items-blocked root_keys (items list) named h) refl))
