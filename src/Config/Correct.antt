-- ===== src/Config/Correct.antt =====
-- config/config.go: `ParseConfig` against the description of what a text means.
use goldfish.Prelude.{◌≡◌, ◌↔◌, refl, sym, ap, ◌∙◌, String, List, [], ◌∷◌}
use mathlib.Core.Path.{subst}
use goldfish.Config.{
  Config, ListenerConfig, Node, object_list, object_type, other, Items, Item, items, Library,
  parsed, lift,
}
use goldfish.Config.Parse.{
  empty_config, root_keys, parse_listener, parse_vault, only, parse_list, parse_root, parse_config,
}
use goldfish.Config.Outcomes.{
  from_bind, to_bind, parsed-inj, on_error-parsed, lift-parsed, check_items-parsed,
  section_key-parsed,
}
use goldfish.Config.Spec.{IsListener, IsVault, IsConfig}
use goldfish.Config.Sections.{section_fields-parsed, listener_config-parsed, vault_config-parsed}

module _ ⦃lib : Library⦄ where
  abbrev with_listener : ListenerConfig → Config
  with_listener l = record empty_config { listener = l }

  parse_listener-there :
      {C : Type 0} (item : Item) (c : Config)
      → parse_listener empty_config item ≡ parsed c
      → ((l : ListenerConfig) → IsListener item l → with_listener l ≡ c → C)
      → C
  unfolding parse_listener
  parse_listener-there item c h use_it = from_bind _ _ c h λ key hk h1.
      from_bind _ _ c h1 λ m hm h2. from_bind _ _ c h2 λ l hl h3.
        use_it l
          (record {
            key = key;
            m = m;
            has_key = (section_key-parsed _ _ key).0 hk;
            has_fields = (section_fields-parsed _ _ m).0 ((on_error-parsed _ _ m).0 hm);
            sets = (listener_config-parsed key m l).0 hl;
          })
          (parsed-inj _ c h3)

  parse_listener-back :
      (item : Item) (l : ListenerConfig)
      → IsListener item l
      → parse_listener empty_config item ≡ parsed (with_listener l)
  unfolding parse_listener
  parse_listener-back item l i = to_bind _ _ _ i.key ((section_key-parsed _ _ _).1 i.has_key) (
      to_bind _ _ _ i.m ((on_error-parsed _ _ _).1 ((section_fields-parsed _ _ _).1 i.has_fields))
        (to_bind _ _ _ l ((listener_config-parsed _ _ l).1 i.sets) refl))

  parse_vault-there :
      (item : Item) (l : ListenerConfig) (c : Config)
      → parse_vault (with_listener l) item ≡ parsed c
      → IsVault item c.vault × (c.listener ≡ l)
  unfolding parse_vault
  parse_vault-there item l c h = from_bind _ _ c h λ key hk h1. from_bind _ _ c h1 λ m hm h2.
      from_bind _ _ c h2 λ v hv h3.
        subst (λ x. IsVault item x.vault × (x.listener ≡ l)) (parsed-inj _ c h3)
          (
            record {
              key = key;
              m = m;
              has_key = (section_key-parsed _ _ key).0 hk;
              has_fields = (section_fields-parsed _ _ m).0 ((on_error-parsed _ _ m).0 hm);
              sets = (vault_config-parsed key m v).0 hv;
            },
            refl,
          )

  parse_vault-back :
      (item : Item) (c : Config)
      → IsVault item c.vault
      → parse_vault (with_listener c.listener) item ≡ parsed c
  unfolding parse_vault
  parse_vault-back item c i = to_bind _ _ c i.key ((section_key-parsed _ _ _).1 i.has_key) (
      to_bind _ _ c i.m ((on_error-parsed _ _ _).1 ((section_fields-parsed _ _ _).1 i.has_fields))
        (to_bind _ _ c c.vault ((vault_config-parsed _ _ c.vault).1 i.sets) refl))

  only-parsed :
      (list : List Item) (section : String) (item : Item)
      → only list section ≡ parsed item ↔ list ≡ item ∷ []
  unfolding only
  only-parsed [] section item = (λ h. cc, λ h. cc)
  only-parsed (x ∷ []) section item = (λ h. cc, λ h. cc)
  only-parsed (x ∷ y ∷ rest) section item = (λ h. cc, λ h. cc)

  parse_root-object :
      {C : Type 0} (node : Node) (c : Config)
      → parse_root node ≡ parsed c
      → ((list : Items) → node ≡ object_list list → parse_list (items list) ≡ parsed c → C)
      → C
  unfolding parse_root
  parse_root-object (object_list list) c h k = k list refl h
  parse_root-object (object_type list) c h k = cc
  parse_root-object (other type text) c h k = cc

  sound : (d : String) (c : Config) → parse_config d ≡ parsed c → IsConfig d c
  unfolding parse_config parse_list
  sound d c h = from_bind _ _ c h λ node hn h1. from_bind _ _ c h1 λ u hd h2.
      parse_root-object node c h2 λ list e h3. from_bind _ _ c h3 λ u hk h4.
        from_bind _ _ c h4 λ li hli h5. from_bind _ _ c h5 λ c1 hl h6.
          parse_listener-there li c1 ((on_error-parsed _ _ c1).0 hl) λ l il el.
            from_bind _ _ c h6 λ vi hvi h7.
              let (iv, same) = parse_vault-there vi l c (
                subst (λ x. parse_vault x vi ≡ parsed c) (sym el) ((on_error-parsed _ _ c).0 h7)) in
              record {
                list = list;
                is_parsed = (lift-parsed _ _).0 (hn ∙ ap parsed e);
                is_decoded =
                    (lift-parsed _ _).0 (subst (λ n. lift (lib.decode_config n) ≡ parsed tt) e hd);
                root = (check_items-parsed root_keys (items list)).0 hk;
                listener = li;
                one_listener = (only-parsed _ _ li).0 hli;
                is_listener = subst (IsListener li) (sym same) il;
                vault = vi;
                one_vault = (only-parsed _ _ vi).0 hvi;
                is_vault = iv;
              }

  complete : (d : String) (c : Config) → IsConfig d c → parse_config d ≡ parsed c
  unfolding parse_config parse_list parse_root
  complete d c i = to_bind _ _ c (object_list i.list) ((lift-parsed _ _).1 i.is_parsed) (
      to_bind _ _ c tt ((lift-parsed _ _).1 i.is_decoded) (
        to_bind _ _ c tt ((check_items-parsed _ _).1 i.root) (
          to_bind _ _ c i.listener ((only-parsed _ _ _).1 i.one_listener) (
            to_bind _ _ c (with_listener c.listener)
              ((on_error-parsed _ _ _).1 (parse_listener-back _ _ i.is_listener))
              (to_bind _ _ c i.vault ((only-parsed _ _ _).1 i.one_vault)
                ((on_error-parsed _ _ c).1 (parse_vault-back i.vault c i.is_vault)))))))

  -- Whatever the library of HCL answers: a text is parsed into a configuration exactly when it
  -- describes it. Its root has no keys but `listener` and `vault`, and one section of each; the
  -- sections have their known keys only; the listener's address is not empty, and Vault's, which is
  -- kept as the library writes it back, has the scheme `http` or `https`; a flag is `1`, `0` or left
  -- out, and the redirect is on only where TLS is not disabled; the other settings are those given or
  -- the defaults.
  pub parse_config-IsConfig : (d : String) (c : Config) → parse_config d ≡ parsed c ↔ IsConfig d c
  parse_config-IsConfig d c = (sound d c, complete d c)
