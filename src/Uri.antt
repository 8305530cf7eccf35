-- ===== src/Uri.antt =====
-- The addresses of metadata and media: modules/blockchain/evm/utils/index.ts, and
-- `formatTokenUri`, `sanitizeTokenUri` of modules/blockchain/evm/providers/ERC721.provider.ts.
-- `isURL` of the package class-validator is a parameter.
pub mod Laws
pub mod Hex
pub mod Id
use nft_tracker.Prelude.{
  ℕ, Text, text, Bool, true, false, not, Option, none, some, [], ◌∷◌, ◌++◌, ◌&&◌, ◌||◌, ◌==◌, leb,
  or_else, strip_prefix, ends_with, if◌then◌else◌,
}
use Hex.{to_hex, pad_start}

abbrev pub gateway : Text
gateway = text "https://ipfs.io/ipfs/"

abbrev is_alphanumeric : ℕ → Bool
is_alphanumeric c = leb b'0' c && leb c b'9' || leb b'a' c && leb c b'z' || leb b'A' c && leb c b'Z'

all_alphanumeric : Text → Bool
all_alphanumeric [] = true
all_alphanumeric (c ∷ s) = is_alphanumeric c && all_alphanumeric s

-- /^Qm[0-9a-zA-Z]+$/
unfoldable pub is_ipfs_hash : Text → Bool
unfolding all_alphanumeric
is_ipfs_hash (q ∷ m ∷ c ∷ s) = q == b'Q' && m == b'm' && is_alphanumeric c && all_alphanumeric s
is_ipfs_hash _ = false

-- `uri.replace(/^ipfs:\/\//, 'https://ipfs.io/ipfs/')`
abbrev through_gateway : Option Text → Text → Text
through_gateway none uri = uri
through_gateway (some rest) uri = gateway ++ rest

replace_scheme : Text → Text
replace_scheme uri = through_gateway (strip_prefix (text "ipfs://") uri) uri

-- `uri.replace('{id}', s)`: the first occurrence only
abbrev substitute : Option Text → Text → ℕ → Text → Text
substitute (some rest) s c more = s ++ rest
substitute none s c more = c ∷ more

replace_id : Text → Text → Text
replace_id [] s = []
replace_id (c ∷ uri) s = substitute (strip_prefix (text "{id}") (c ∷ uri)) s c (replace_id uri s)

-- the test of a JavaScript string as a condition: `null`, `undefined` and "" fail it
abbrev pub truthy : Option Text → Bool
truthy none = false
truthy (some []) = false
truthy (some (c ∷ s)) = true

module _ (is_url : Text → Bool) where
  pub qualify : Text → Text
  qualify uri = if not (is_url uri) && is_ipfs_hash uri then gateway ++ uri else uri

  unfoldable pub sanitize_uri : Text → Text
  unfolding replace_scheme qualify
  sanitize_uri uri = qualify (replace_scheme uri)

  pub sanitize_token_uri : Text → ℕ → Text
  unfolding replace_scheme replace_id qualify
  sanitize_token_uri token_uri token_id =
      qualify (replace_id (replace_scheme token_uri) (pad_start 64 b'0' (to_hex token_id)))

  abbrev join : Text → Option Text → Text
  join base_uri none = base_uri
  join base_uri (some token_uri) =
      if ends_with base_uri b'/' then base_uri ++ token_uri else base_uri ++ text "/" ++ token_uri

  unfoldable pub format_token_uri : ℕ → Option Text → Option Text → Text
  format_token_uri token_id base_uri token_uri =
      if not (truthy token_uri) && not (truthy base_uri)
      then []
      else if not (truthy base_uri)
      then sanitize_token_uri (or_else token_uri []) token_id
      else sanitize_token_uri (join (or_else base_uri []) token_uri) token_id
