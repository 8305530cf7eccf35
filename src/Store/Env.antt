-- ===== src/Store/Env.antt =====
-- The world outside of the program. What a question gets for an answer may depend on the tick at
-- which it is asked. Contract calls (the package ethers), requests (axios), the hash and the
-- validators of class-validator are fields here; nothing is assumed of them.
use nft_tracker.Prelude.{ℕ, Text, Option, Bool, List}
use nft_tracker.Store.Entities.{Json}
use nft_tracker.Store.Exec.{Result}

-- What is read of an `AxiosError`.
pub record HttpFailure : Type 0 where
  pub status : Option ℕ
  pub data_message : Option Text
  pub error_message : Option Text
  pub request_url : Text

pub data HttpReply : Type 0 where
  body : Json → HttpReply
  failure : HttpFailure → HttpReply

pub record Uploaded : Type 0 where
  pub public_id : Text
  pub url : Text

pub record Env : Type 0 where
  pub clock : ℕ → ℕ
  pub uuid : ℕ → ℕ
  -- `new ethers.Contract` on the provider of a chain, which may be unknown
  pub connect : ℕ → ℕ → Result (Unit {0})
  -- the calls of a contract, at an address and a chain
  pub name : ℕ → Text → ℕ → Result Text
  pub symbol : ℕ → Text → ℕ → Result Text
  pub total_supply : ℕ → Text → ℕ → Result (Option Text)
  pub owner_of : ℕ → Text → ℕ → ℕ → Result Text
  pub token_uri : ℕ → Text → ℕ → ℕ → Result Text
  pub uri : ℕ → Text → ℕ → ℕ → Result Text
  pub base_uri : ℕ → Text → ℕ → Result Text
  pub http_get : ℕ → Text → HttpReply
  pub upload : ℕ → Text → Result Uploaded
  pub is_url : Text → Bool
  pub is_json : Text → Bool
  pub parse_json : Text → Option Json
  -- the order in which `parallel` takes up the numbers that it is given
  pub order : ℕ → List ℕ → List ℕ
  -- SQL's `ILIKE`: the value and the pattern
  pub ilike : Text → Text → Bool
