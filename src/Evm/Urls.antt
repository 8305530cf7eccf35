-- ===== src/Evm/Urls.antt =====
-- modules/blockchain/evm/evm.service.ts, evm-logs.service.ts and the enum `ChainId`: the addresses
-- at which a chain is reached when the configuration names none.
use nft_tracker.Prelude.{ℕ, Text, text, Option, none, some, List, [], ◌∷◌, ◌==◌, if◌then◌else◌}
use nft_tracker.Store.World.{chain_not_supported}
use nft_tracker.Store.Exec.{Result, ok, err}

pub data ChainId : Type 0 where
  mainnet localhost mumbai polygon moonbeam moonriver : ChainId

unfoldable pub chain_of : ℕ → Option ChainId
chain_of n =
    if n == 1
    then some mainnet
    else if n == 1337
    then some localhost
    else if n == 80001
    then some mumbai
    else if n == 137
    then some polygon
    else if n == 1284
    then some moonbeam
    else if n == 1285
    then some moonriver
    else none

abbrev rpc_url_of : ChainId → Text
rpc_url_of localhost = text "http://localhost:8545"
rpc_url_of moonbeam = text "https://moonbeam.unitedbloc.com"
rpc_url_of moonriver = text "https://moonriver.unitedbloc.com"
rpc_url_of mumbai = text "https://rpc-mumbai.maticvigil.com"
rpc_url_of polygon = text "https://polygon-rpc.com"
rpc_url_of mainnet = text "https://eth.meowrpc.com"

abbrev wss_url_of : ChainId → Text
wss_url_of localhost = text "wss://localhost:8545"
wss_url_of moonbeam = text "wss://moonbeam.unitedbloc.com"
wss_url_of moonriver = text "wss://moonriver.unitedbloc.com"
wss_url_of mumbai = []
wss_url_of polygon = text "wss://polygon.api.onfinality.io/public-ws"
wss_url_of mainnet = text "wss://ethereum.publicnode.com"

abbrev logs_urls_of : ChainId → List Text
logs_urls_of localhost = text "http://localhost:8545" ∷ []
logs_urls_of moonbeam = text "https://moonbeam.unitedbloc.com" ∷ []
logs_urls_of moonriver = text "https://moonriver.unitedbloc.com" ∷ []
logs_urls_of mumbai = text "https://rpc-mumbai.maticvigil.com" ∷ []
logs_urls_of polygon =
    text "https://polygon-rpc.com"
    ∷ text "https://1rpc.io/matic"
    ∷ text "https://polygon.llamarpc.com"
    ∷ text "https://endpoints.omniatech.io/v1/matic/mainnet/public"
    ∷ text "https://polygon-pokt.nodies.app"
    ∷ []
logs_urls_of mainnet = text "https://eth.meowrpc.com" ∷ []

module _ {A : Type 0} where
  abbrev pub or_not_supported : ℕ → (ChainId → A) → Option ChainId → Result A
  or_not_supported chain_id url none = err (chain_not_supported chain_id)
  or_not_supported chain_id url (some chain) = ok (url chain)

unfoldable pub get_rpc_url : ℕ → Result Text
unfolding chain_of
get_rpc_url chain_id = or_not_supported chain_id rpc_url_of (chain_of chain_id)

unfoldable pub get_wss_url : ℕ → Result Text
unfolding chain_of
get_wss_url chain_id = or_not_supported chain_id wss_url_of (chain_of chain_id)

-- `getRPCUrl` of the reader of logs
unfoldable pub get_logs_urls : ℕ → Result (List Text)
unfolding chain_of
get_logs_urls chain_id = or_not_supported chain_id logs_urls_of (chain_of chain_id)
