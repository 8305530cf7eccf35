-- ===== src/Repeat.antt =====
-- common/helpers/queue.helper.ts, and the schedules that the processors of the jobs and of the
-- webhooks set up with it when the program starts. The repeatable jobs of a Bull queue are a
-- parameter: a record of operations, with what they do to the list of those jobs.
pub mod Matches
pub mod Settled
use nft_tracker.Prelude.{
  ℕ, ◌≡◌, refl, sym, ap, ◌∙◌, subst, Text, text, Option, none, some, Bool, true, false, not, List,
  [], ◌∷◌, ◌++◌, ◌===◌, ◌&&◌, ◌||◌, ◌⊎◌, inl, inr, leb, any, select, length, All, Bool-cases,
  ===_refl, eq_of_===, if◌then◌else◌, arith,
}

-- the members of `CronExpression` in use
pub data Cron : Type 0 where
  every_10_seconds every_minute every_hour every_6_hours : Cron

pub record Repeatable : Type 0 where
  pub id : Text
  pub key : Text

pub record RepeatQueue (S : Type 0) : Type 0 where
  pub get_repeatable_jobs : S → List Repeatable
  pub remove_repeatable_by_key : Text → S → S
  -- a job with its name, its `jobId` and its cron expression
  pub add : Text → Text → Cron → S → S

-- A repeatable job is known by a key that its name, its number and its expression make up: what is
-- removed is the job with the key, and a job whose key is there is not added again.
pub record IsRepeatQueue {S : Type 0} (queue : RepeatQueue S) (key_of : Text → Text → Cron → Text)
    : Type 0 where
  pub remove_lem :
      (key : Text) (s : S)
      → queue.get_repeatable_jobs (queue.remove_repeatable_by_key key s)
        ≡ select (λ j. not (j.key === key)) (queue.get_repeatable_jobs s)
  pub add_lem :
      (name id : Text) (cron : Cron) (s : S)
      → queue.get_repeatable_jobs (queue.add name id cron s) ≡ (
          if any (λ j. j.key === key_of name id cron) (queue.get_repeatable_jobs s)
          then queue.get_repeatable_jobs s
          else queue.get_repeatable_jobs s ++ record { id = id; key = key_of name id cron } ∷ [])

abbrev pub has_id : Text → Repeatable → Bool
has_id id j = j.id === id

module _ {S : Type 0} (queue : RepeatQueue S) where
  open queue use {get_repeatable_jobs, remove_repeatable_by_key}

  unfoldable pub remove_each : List Repeatable → S → S
  remove_each [] s = s
  remove_each (j ∷ js) s = remove_each js (remove_repeatable_by_key j.key s)

  -- nothing is removed where there is one job with the number, or none
  unfoldable pub remove_dangling_repeatable_jobs : Text → S → S
  unfolding remove_each
  remove_dangling_repeatable_jobs job_id s =
      if leb (length (select (has_id job_id) (get_repeatable_jobs s))) 1
      then s
      else remove_each (select (has_id job_id) (get_repeatable_jobs s)) s

  unfoldable pub schedule_repeatable_job : Text → Text → Cron → S → S
  unfolding remove_dangling_repeatable_jobs
  schedule_repeatable_job name job_scheduler_id cron s =
      queue.add name job_scheduler_id cron (remove_dangling_repeatable_jobs job_scheduler_id s)

pub record Schedule : Type 0 where
  pub name : Text
  pub cron : Cron

-- The list of `scheduleJobs` of each processor, with the names of `TokenJobJobs`, `WebhookJobs`.
abbrev pub token_schedules : List Schedule
token_schedules =
    record { name = text "createFetchJobs"; cron = every_minute }
    ∷ record { name = text "createVerifyMintJobs"; cron = every_10_seconds }
    ∷ record { name = text "createFetchOwnerAddressJobs"; cron = every_6_hours }
    ∷ record { name = text "checkJobFrozen"; cron = every_minute }
    ∷ record { name = text "syncTotalSupply"; cron = every_hour }
    ∷ record { name = text "resyncVerifyMint"; cron = every_hour }
    ∷ []

abbrev pub webhook_schedules : List Schedule
webhook_schedules = record { name = text "syncWebhookFailed"; cron = every_minute } ∷ []

module _ {S : Type 0} (queue : RepeatQueue S) where
  -- `schedule:` before the name; the calls of `Promise.all`, one after another
  unfoldable pub schedule_jobs : List Schedule → S → S
  schedule_jobs [] s = s
  schedule_jobs (j ∷ js) s =
      schedule_jobs js (schedule_repeatable_job queue j.name (text "schedule:" ++ j.name) j.cron s)
