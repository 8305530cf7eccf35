-- ===== src/Jobs/VerifyMint/Resync.antt =====
-- `resyncVerifyMint`: which contracts it verifies anew.
use nft_tracker.Prelude.{
  ℕ, suc, ◌≤◌, ◌≡◌, refl, ap, Option, none, some, Bool, false, List, [], ◌∷◌, map, select, or_else,
  All, Bool-cases, inl, inr, arith,
}
use nft_tracker.Store.Entities.{TokenJob, Contract}
use nft_tracker.Store.World.{Db, World}
use nft_tracker.Store.Exec.{ok, ◌>>=◌}
use nft_tracker.Store.Env.{Env}
use nft_tracker.Store.Tables.{new_date}
use nft_tracker.Jobs.VerifyMint.{
  ResyncItem, later_of, greatest, verifies, belongs, resync_items, is_selected, save_resync,
  resync_verify_mint,
}

greatest-bounded :
    (p : TokenJob → Bool) (now : ℕ) (js : List TokenJob)
    → All (λ j. j.created_at ≤ now) js
    → or_else (greatest (map (λ j. j.created_at) (select p js))) 0 ≤ now
unfolding greatest
greatest-bounded p now [] h = omega arith
greatest-bounded p now (j ∷ js) (hj, h) = elim (Bool-cases (p j)) [
  | inl e ↦ rw e (bounded _ (greatest-bounded p now js h))
  | inr e ↦ rw e (greatest-bounded p now js h)
]
  where
    bounded : (o : Option ℕ) → or_else o 0 ≤ now → or_else (later_of o j.created_at) 0 ≤ now
    bounded none b = hj
    bounded (some m) b = ground arith

not_selected :
    (env : Env) (now : ℕ) (item : ResyncItem)
    → or_else item.last_verify_at 0 ≤ now
    → is_selected env now item ≡ false
unfolding is_selected
not_selected env now item h = ground arith

none_selected :
    (env : Env) (now : ℕ) (d : Db)
    → All (λ j. j.created_at ≤ now) d.jobs
    → select (is_selected env now) (resync_items d) ≡ []
unfolding resync_items
none_selected env now d h = none_of d.contracts
  where
    none_of :
        (cs : List Contract)
        → select (is_selected env now) (resync_items (record d { contracts = cs })) ≡ []
    none_of [] = refl
    none_of (c ∷ cs) =
        let item : ResyncItem = record {
          address = c.address;
          chain_id = c.chain_id;
          last_verify_at = greatest (map (λ j. j.created_at) (select (verifies c) d.jobs));
          token_id = greatest (map (λ t. t.token_id) (select (belongs c) d.tokens));
        } in
        let idle = not_selected env now item (greatest-bounded (verifies c) now d.jobs h) in
        rw idle (none_of cs)

-- As long as no job was created in the future, `resyncVerifyMint` selects no contract: it returns
-- without a new job, and the tables are as before. The difference that it tests is that of the last
-- verification from now, which is not positive.
pub resync_verify_mint_idle :
    (env : Env) (w : World)
    → All (λ j. j.created_at ≤ env.clock w.ticks) w.db.jobs
    → resync_verify_mint env w ≡ (ok tt, record w { ticks = suc w.ticks })
unfolding resync_verify_mint save_resync ◌>>=◌ new_date
resync_verify_mint_idle env w h =
    ap (λ items. save_resync env items (record w { ticks = suc w.ticks }))
      (none_selected env (env.clock w.ticks) w.db h)
