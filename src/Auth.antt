-- ===== src/Auth.antt =====
-- modules/auth/auth.service.ts: the keys that a caller may give. What the configuration answers
-- with is an argument.
use nft_tracker.Prelude.{Text, Option, none, some, Bool, false, List, ◌===◌, any}
use nft_tracker.Store.Exec.{Result, ok, err}

-- An entry of the configuration `API_KEYS`.
pub record ApiKey : Type 0 where
  pub value : Text
  pub label : Text

abbrev pub some_key : Text → Option (List ApiKey) → Bool
some_key api_key none = false
some_key api_key (some keys) = any (λ k. k.value === api_key) keys

unfoldable pub validate_api_key : Text → Result (Option (List ApiKey)) → Result Bool
validate_api_key api_key (ok keys) = ok (some_key api_key keys)
validate_api_key api_key (err e) = err e
