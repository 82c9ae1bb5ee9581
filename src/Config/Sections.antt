-- ===== src/Config/Sections.antt =====
-- config/config.go: what the sections of a configuration are read as.
use goldfish.Prelude.{
  ◌≡◌, ◌↔◌, arith, refl, inl, inr, String, Bool, true, false, ◌||◌, Option, none, some, List, ◌==◌,
  eq_iff,
}
use mathlib.Core.Path.{subst}
use goldfish.Config.{ListenerConfig, VaultConfig, Node, Library, parsed}
use goldfish.Config.Parse.{
  empty_config, redirect, section_fields, listener_config, web_address, vault_config,
}
use goldfish.Config.Outcomes.{
  from_bind, to_bind, parsed-inj, on_error-parsed, lift-parsed, if-parsed, check_hcl_keys-parsed,
  required-parsed, switch-parsed,
}
use goldfish.Config.Spec.{IsWeb, IsRedirect, IsAddress, SetsListener, SetsVault, HasFields}

redirect-parsed :
    (disabled : Bool) (v : Option String) (key : String) (b : Bool)
    → redirect disabled false v key ≡ parsed b ↔ IsRedirect disabled v b
unfolding redirect
redirect-parsed disabled none key b = (λ h. inl (refl, cc), λ h. ground arith)
redirect-parsed disabled (some v) key b = (
  λ h. ground (arith, eq_iff v "1", eq_iff v "0"),
  λ h. elim h [
    | inl (q, r) ↦ cc
    | inr (inl (q, r)) ↦ let z : v ≡ "0" = cc in rw (z, r) refl
    | inr (inr (q, e, r)) ↦ let z : v ≡ "1" = cc in rw (z, e, r) refl
  ],
)

module _ ⦃lib : Library⦄ where
  pub section_fields-parsed :
      (node : Node) (valid : List String) (m : List (String × String))
      → section_fields node valid ≡ parsed m ↔ HasFields node valid m
  unfolding section_fields
  section_fields-parsed node valid m = (
    λ h. from_bind _ _ m h λ u k e. record {
      keys = (check_hcl_keys-parsed node valid).0 k;
      decoded = (lift-parsed _ m).0 e;
    },
    λ f.
        to_bind _ _ m tt ((check_hcl_keys-parsed node valid).1 f.keys)
          ((lift-parsed _ m).1 f.decoded),
  )

  is_web : (s : String) → (s == "http" || s == "https") ≡ true ↔ IsWeb s
  is_web s = (
    λ h. ground (arith, eq_iff s "http", eq_iff s "https"),
    λ h. elim h [ inl e ↦ rw (e) refl | inr e ↦ rw (e) refl ],
  )

  web_address-parsed :
      (given address : String) → web_address given ≡ parsed address ↔ IsAddress given address
  unfolding web_address
  web_address-parsed given address = (
    λ h. from_bind _ _ address h λ url e t.
        let (q, x) =
          if-parsed (url.scheme == "http" || url.scheme == "https") _ _ address (λ x r. cc) t in
        record {
          url = url;
          is_url = (lift-parsed _ url).0 ((on_error-parsed _ _ url).0 e);
          is_web = (is_web url.scheme).0 q;
          same_text = parsed-inj _ _ x;
        },
    λ w.
        to_bind _ _ address w.url ((on_error-parsed _ _ w.url).1 ((lift-parsed _ w.url).1 w.is_url))
          (rw ((is_web w.url.scheme).1 w.is_web, w.same_text) refl),
  )

  pub listener_config-parsed :
      (key : String) (m : List (String × String)) (l : ListenerConfig)
      → listener_config empty_config.listener key m ≡ parsed l ↔ SetsListener key m l
  unfolding listener_config
  listener_config-parsed key m l = (
    λ h. from_bind _ _ l h λ a ha h1. from_bind _ _ l h1 λ d hd h2. from_bind _ _ l h2 λ r hr h3.
        subst (SetsListener key m) (parsed-inj _ l h3) (record {
          type = refl;
          address = ((required-parsed _ _ a).0 ha).0;
          has_address = ((required-parsed _ _ a).0 ha).1;
          disable = (switch-parsed _ _ d).0 hd;
          cert_file = refl;
          key_file = refl;
          redirect = (redirect-parsed d _ _ r).0 hr;
        }),
    λ f. to_bind _ _ l l.address ((required-parsed _ _ _).1 (f.address, f.has_address)) (
        to_bind _ _ l l.tls_disable ((switch-parsed _ _ _).1 f.disable) (
          to_bind _ _ l l.tls_autoredirect ((redirect-parsed _ _ _ _).1 f.redirect)
            (rw (f.type, f.cert_file, f.key_file) refl))),
  )

  pub vault_config-parsed :
      (key : String) (m : List (String × String)) (v : VaultConfig)
      → vault_config empty_config.vault key m ≡ parsed v ↔ SetsVault key m v
  unfolding vault_config
  vault_config-parsed key m v = (
    λ h. from_bind _ _ v h λ g hg h1. from_bind _ _ v h1 λ a ha h2. from_bind _ _ v h2 λ k hk h3.
        subst (SetsVault key m) (parsed-inj _ v h3) (record {
          type = refl;
          given = g;
          address = ((required-parsed _ _ g).0 hg).0;
          has_address = ((required-parsed _ _ g).0 hg).1;
          is_address = (web_address-parsed g a).0 ha;
          skip = (switch-parsed _ _ k).0 hk;
          runtime = refl;
          login = refl;
          id = refl;
        }),
    λ f. to_bind _ _ v f.given ((required-parsed _ _ _).1 (f.address, f.has_address)) (
        to_bind _ _ v v.address ((web_address-parsed _ _).1 f.is_address) (
          to_bind _ _ v v.tls_skip_verify ((switch-parsed _ _ _).1 f.skip)
            (rw (f.type, f.runtime, f.login, f.id) refl))),
  )
