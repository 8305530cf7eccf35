-- ===== src/Uri/Laws.antt =====
-- What sanitised addresses look like.
use nft_tracker.Prelude.{
  ℕ, Text, text, ◌≡◌, refl, ap, ◌∙◌, Bool, true, false, not, some, [], ◌∷◌, ◌++◌, ◌&&◌, ◌⊎◌,
  strip_prefix, ends_with, Option-cases, Bool-cases, inl, inr, arith, ==_iff,
}
use nft_tracker.Uri.{
  gateway, is_ipfs_hash, replace_scheme, qualify, sanitize_uri, format_token_uri, truthy,
}

-- An address behind the gateway is left as it is.
replace_scheme-gateway : (s : Text) → replace_scheme (gateway ++ s) ≡ gateway ++ s
unfolding replace_scheme
replace_scheme-gateway s = refl

module _ (is_url : Text → Bool) where
  pub qualify-gateway : (s : Text) → qualify is_url (gateway ++ s) ≡ gateway ++ s
  unfolding qualify is_ipfs_hash
  qualify-gateway s = ground arith

  sanitize_uri-gateway : (s : Text) → sanitize_uri is_url (gateway ++ s) ≡ gateway ++ s
  unfolding sanitize_uri
  sanitize_uri-gateway s = ap (qualify is_url) (replace_scheme-gateway s) ∙ qualify-gateway s

  qualify_cases : (uri : Text) → (qualify is_url uri ≡ gateway ++ uri) ⊎ (qualify is_url uri ≡ uri)
  unfolding qualify
  qualify_cases uri = elim (Bool-cases (not (is_url uri) && is_ipfs_hash uri)) [
    | inl hash ↦ inl (rw hash)
    | inr other ↦ inr (rw other)
  ]

  -- Either the result stands behind the gateway, or nothing was changed.
  pub sanitize_uri_cases :
      (uri : Text)
      → ((s : Text) × (sanitize_uri is_url uri ≡ gateway ++ s)) ⊎ (sanitize_uri is_url uri ≡ uri)
  unfolding sanitize_uri replace_scheme
  sanitize_uri_cases uri = elim (Option-cases (strip_prefix (text "ipfs://") uri)) [
    | inl plain ↦
        rw plain (elim (qualify_cases uri) [ inl behind ↦ inl (uri, behind) | inr same ↦ inr same ])
    | inr (rest, found) ↦ inl (rest, rw found (qualify-gateway rest))
  ]

  -- Sanitising an address a second time changes nothing, whatever `isURL` accepts.
  pub sanitize_uri-sanitize_uri :
      (uri : Text) → sanitize_uri is_url (sanitize_uri is_url uri) ≡ sanitize_uri is_url uri
  sanitize_uri-sanitize_uri uri = elim (sanitize_uri_cases uri) [
    | inl (s, behind) ↦ rw behind (sanitize_uri-gateway s)
    | inr same ↦ ap (sanitize_uri is_url) same
  ]

  -- No address with the scheme `ipfs:` is left: each stands behind the gateway instead.
  pub sanitize_uri-ipfs :
      (rest : Text) → sanitize_uri is_url (text "ipfs://" ++ rest) ≡ gateway ++ rest
  unfolding sanitize_uri replace_scheme
  sanitize_uri-ipfs rest = qualify-gateway rest

  ends_with-append : (s : Text) (c : ℕ) → ends_with (s ++ c ∷ []) c ≡ true
  ends_with-append [] c = (==_iff c c).1 refl
  ends_with-append (d ∷ []) c = (==_iff c c).1 refl
  ends_with-append (d ∷ e ∷ s) c = ends_with-append (e ∷ s) c

  truthy-append : (s t : Text) → truthy (some s) ≡ true → truthy (some (s ++ t)) ≡ true
  truthy-append [] t h = cc
  truthy-append (c ∷ s) t h = refl

  -- A base address gives the same result with its last slash and without it.
  pub format_token_uri_slash :
      (token_id : ℕ) (base_uri token_uri : Text)
      → truthy (some base_uri) ≡ true
      → ends_with base_uri b'/' ≡ false
      → format_token_uri is_url token_id (some (base_uri ++ text "/")) (some token_uri)
        ≡ format_token_uri is_url token_id (some base_uri) (some token_uri)
  unfolding format_token_uri
  format_token_uri_slash token_id base_uri token_uri present bare =
      rw (truthy-append base_uri (text "/") present, present, bare, ends_with-append base_uri b'/')
