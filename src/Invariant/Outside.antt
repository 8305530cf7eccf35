-- ===== src/Invariant/Outside.antt =====
-- The rules for invariants on questions to the outside and on the scheduling of jobs.
use nft_tracker.Prelude.{ℕ, Text, refl, Option, none, some}
use nft_tracker.Provider
use nft_tracker.Store.Entities.{TokenJobType}
use nft_tracker.Store.World.{Db, QueueName}
use nft_tracker.Store.Exec.{modify}
use nft_tracker.Store.Exec.Keeps.{
  Keeps, Holds, Keeps-pure, Keeps-bind, Keeps-bind-gets, Keeps-write, Keeps-gets, Keeps-if,
  Keeps-modify, keeps_rules,
}
use nft_tracker.Store.Env.{Env}
use nft_tracker.Store.Tables.{new_date}
use nft_tracker.Jobs.Service.{date_or_now}
use nft_tracker.Jobs.Schedule.{schedule_jobs, enqueue}

module _ {P : Db → Type 0} (env : Env) where
  pub Keeps-new_date : Keeps (Holds P) (new_date env)
  unfolding new_date
  Keeps-new_date = search keeps_rules

  pub Keeps-create : (chain_id : ℕ) → Keeps (Holds P) (Provider.create env chain_id)
  unfolding Provider.create
  Keeps-create chain_id = search keeps_rules

  module _ (address : Text) (chain_id token_id : ℕ) where
    pub Keeps-get_owner_of : Keeps (Holds P) (Provider.get_owner_of env address chain_id token_id)
    unfolding Provider.get_owner_of Provider.owner_of
    Keeps-get_owner_of = search keeps_rules depth 20

    pub Keeps-get_token_uri : Keeps (Holds P) (Provider.get_token_uri env address chain_id token_id)
    unfolding Provider.get_token_uri Provider.get_uri
    Keeps-get_token_uri = search keeps_rules depth 20

  pub Keeps-get_base_uri :
      (address : Text) (chain_id : ℕ) → Keeps (Holds P) (Provider.get_base_uri env address chain_id)
  unfolding Provider.get_base_uri
  Keeps-get_base_uri address chain_id = search keeps_rules depth 20

  pub Keeps-date_or_now : (date : Option ℕ) → Keeps (Holds P) (date_or_now env date)
  unfolding date_or_now
  Keeps-date_or_now none = Keeps-new_date
  Keeps-date_or_now (some date) = Keeps-pure date

  pub Keeps-enqueue :
      (name : QueueName) (job_id : ℕ) → Keeps (Holds P) (modify (enqueue name job_id))
  Keeps-enqueue name job_id = Keeps-modify (enqueue name job_id) (λ w. refl) (λ w. refl)

  pub Keeps-schedule_jobs :
      (type : TokenJobType) (limit : Option ℕ) (name : QueueName)
      → Keeps (Holds P) (schedule_jobs env type limit name)
  unfolding schedule_jobs
  Keeps-schedule_jobs type limit name = search (keeps_rules, Keeps-new_date, Keeps-enqueue) depth 20

pub ruleset outside_rules = (
  keeps_rules, Keeps-new_date, Keeps-create, Keeps-get_owner_of, Keeps-get_token_uri,
  Keeps-get_base_uri, Keeps-date_or_now,
)
