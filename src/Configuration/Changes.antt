-- ===== src/Configuration/Changes.antt =====
-- What the methods that change the table leave in memory.
use nft_tracker.Prelude.{
  ℕ, ◌≡◌, refl, Option, none, some, List, [], ◌∷◌, ◌++◌, inl, inr, find_one, or_else, update_where,
  All-append, All-update_where, Bool-cases,
}
use nft_tracker.Store.Entities.{Json}
use nft_tracker.Store.World.{Error}
use nft_tracker.Store.Exec.{ok}
use nft_tracker.Action.{Action, go_on, stays, try_catch, ◌>>=◌}
use nft_tracker.Configuration.{
  ConfigurationEntity, Configurations, CreateConfigurationDto, UpdateConfigurationDto, Tools,
  has_id, validate, check, load, create_new, create, changed, schema_for, update_found, update,
  new_row, resolve_schema, found_or_fail, generate_types, create_migration,
}
use nft_tracker.Configuration.Store.{Synced, AllChecked, load-Synced}

-- Every active entry of the table is valid, and the copy in memory reads as the table does.
pub record Consistent (tools : Tools) (s : Configurations) : Type 0 where
  pub checked : AllChecked tools s.table
  pub synced : Synced s

module _ (tools : Tools) where
  reloaded :
      {B : Type 0} (f : Unit → Action Configurations B) (s : Configurations)
      → AllChecked tools s.table
      → ((s' : Configurations) → Consistent tools s' → Consistent tools (f tt s').1)
      → Consistent tools (go_on (load tools s).0 f (load tools s).1).1
  reloaded f s h next =
      let (s', e, same, synced) = load-Synced tools s h in
      rw e (next s' (record { checked = rw same h; synced = synced }))

  tried :
      {B : Type 0} (handler : Error → Action Configurations Unit)
      (f : Unit → Action Configurations B) (s : Configurations)
      → AllChecked tools s.table
      → ((s' : Configurations) → Consistent tools s' → Consistent tools (f tt s').1)
      → Consistent tools ((try_catch (load tools) handler >>= f) s).1
  tried handler f s h next =
      let (s', e, same, synced) = load-Synced tools s h in
      rw e (next s' (record { checked = rw same h; synced = synced }))

  check-ok :
      (c : ConfigurationEntity)
      → validate tools (some c.value) c.schema ≡ ok tt
      → check tools c ≡ ok tt
  check-ok c valid = elim (Bool-cases c.active) [ inl e ↦ rw e valid | inr e ↦ rw e refl ]

  create_new-Consistent :
      (id : ℕ) (dto : CreateConfigurationDto) (found : Option ConfigurationEntity)
      (s : Configurations)
      → Consistent tools s
      → Consistent tools (create_new tools id dto found s).1
  unfolding create_new
  create_new-Consistent id dto (some c) s h = h
  create_new-Consistent id dto none s h =
      stays (Consistent tools) (validate tools (some dto.value) (resolve_schema tools dto)) _ s h
        (λ u valid. reloaded _ _ (added valid) (λ s' h'.
          stays (Consistent tools) (generate_types tools s'.store) _ s' h' (λ u e.
            stays (Consistent tools) (create_migration tools (new_row tools id dto)) _ s' h'
              (λ u e. h'))))
    where
      added :
          validate tools (some dto.value) (resolve_schema tools dto) ≡ ok tt
          → AllChecked tools (s.table ++ new_row tools id dto ∷ [])
      added valid = All-append _ s.table _ h.checked (check-ok (new_row tools id dto) valid, tt)

  -- `create` keeps the table valid and the copy in step with it, whether it returns or throws.
  pub create-Consistent :
      (id : ℕ) (dto : CreateConfigurationDto) (s : Configurations)
      → Consistent tools s
      → Consistent tools (create tools id dto s).1
  unfolding create
  create-Consistent id dto s h = create_new-Consistent id dto _ s h

  kept_valid :
      (v : Option Json) (old schema : Json)
      → validate tools v schema ≡ ok tt
      → validate tools (some (or_else v old)) schema ≡ ok tt
  unfolding validate
  kept_valid none old schema valid = cc
  kept_valid (some v) old schema valid = valid

  found_or_fail-Consistent :
      (id : ℕ) (o : Option ConfigurationEntity) (s : Configurations)
      → Consistent tools s
      → Consistent tools (found_or_fail tools id o s).1
  found_or_fail-Consistent id none s h = h
  found_or_fail-Consistent id (some c) s h = h

  changed-ok :
      (id : ℕ) (dto : UpdateConfigurationDto) (schema : Json) (cs : List ConfigurationEntity)
      → validate tools dto.value schema ≡ ok tt
      → AllChecked tools cs
      → AllChecked tools (update_where (has_id id) (changed tools dto schema) cs)
  changed-ok id dto schema cs valid h =
      All-update_where _ (has_id id) _ cs
        (λ c hc same.
          check-ok (changed tools dto schema c) (kept_valid dto.value c.value schema valid))
        h

  update_found-Consistent :
      (id : ℕ) (dto : UpdateConfigurationDto) (found : Option ConfigurationEntity)
      (s : Configurations)
      → Consistent tools s
      → Consistent tools (update_found tools id dto found s).1
  unfolding update_found
  update_found-Consistent id dto none s h = h
  update_found-Consistent id dto (some c) s h =
      stays (Consistent tools) (validate tools dto.value (schema_for tools dto c)) _ s h (λ u valid.
        tried _ _ _ (changed-ok id dto (schema_for tools dto c) s.table valid h.checked)
          (λ s' h'. found_or_fail-Consistent id (find_one (has_id id) s'.table) s' h'))

  -- `update` keeps the table valid and the copy in step with it, whether it returns or throws.
  pub update-Consistent :
      (id : ℕ) (dto : UpdateConfigurationDto) (s : Configurations)
      → Consistent tools s
      → Consistent tools (update tools id dto s).1
  unfolding update
  update-Consistent id dto s h = update_found-Consistent id dto _ s h
