-- ===== src/Tests/Services.antt =====
-- The theorems on the services that keep something in memory, applied to small states of them.
use nft_tracker.Prelude.{◌≡◌, refl, text, true, [], ◌∷◌, ◌⊎◌}
use nft_tracker.Store.World.{Error}
use nft_tracker.Store.Exec.{ok, err}
use nft_tracker.Configuration.{load, get, create, update}
use nft_tracker.Configuration.Store.{Synced, FirstAnswer, load_atomic, get_refines}
use nft_tracker.Configuration.Changes.{Consistent, create-Consistent, update-Consistent}
use nft_tracker.Evm.{closed}
use nft_tracker.Evm.Sockets.{
  here, then_, subscribes, checks, socket_changes, checking_if_socket_connection_is_still_open,
}
use nft_tracker.Evm.Listeners.{Listening, Reach-Listening}
use nft_tracker.Tests.Data.{
  small_tools, small_configurations, loaded_configurations, loaded-Consistent, small_dto,
  small_update, small_network, small_watch, closed_watch,
}

load_atomic_example :
    (((load small_tools small_configurations).0 ≡ ok tt)
      × Synced (load small_tools small_configurations).1)
    ⊎ ((e : Error) × (load small_tools small_configurations ≡ (err e, small_configurations)))
load_atomic_example = load_atomic small_tools small_configurations

get_refines_example :
    FirstAnswer small_tools
      (text "EVM")
      small_configurations
      (get small_tools (text "EVM") small_configurations)
get_refines_example = get_refines small_tools (text "EVM") small_configurations refl

create-Consistent_example :
    Consistent small_tools (create small_tools 2 small_dto loaded_configurations).1
create-Consistent_example =
    create-Consistent small_tools 2 small_dto loaded_configurations loaded-Consistent

update-Consistent_example :
    Consistent small_tools (update small_tools 1 small_update loaded_configurations).1
update-Consistent_example =
    update-Consistent small_tools 1 small_update loaded_configurations loaded-Consistent

Reach-Listening_example :
    Listening
      (checking_if_socket_connection_is_still_open small_network true (1 ∷ []) closed_watch).1
Reach-Listening_example =
    Reach-Listening small_network true {chain_ids = 1 ∷ []}
      (then_ (then_ (then_ (here {s = small_watch}) (subscribes 1)) (socket_changes 1 closed))
        checks)
      tt
