-- ===== src/LoggerContext.antt =====
-- common/decorators/logger-context.decorator.ts. `Logged` is the state of an object with a logger:
-- the context of the logger, and the rest. The name of the class is never empty.
pub mod Overlap
use nft_tracker.Prelude.{
  ℕ, Text, text, Option, none, some, List, [], ◌∷◌, ◌++◌, ◌==◌, find_one, if◌then◌else◌, Bool,
}
use nft_tracker.Store.World.{Error}
use nft_tracker.Store.Exec.{Result}
use nft_tracker.Action.{Action}

pub record Logged (S : Type 0) : Type 0 where
  pub context : Text
  pub rest : S

-- `${className}:${name}`
unfoldable pub context_of : Text → Text → Text
context_of class_name property_key = class_name ++ text ":" ++ property_key

module _ {S : Type 0} where
  abbrev pub set_context : Text → Logged S → Logged S
  set_context context s = record s { context = context }

  -- A call of a method, from its start to its end. The errors that `logError` asks for are logged.
  unfoldable pub apply_method :
      {A : Type 0} → Text → Text → Action (Logged S) A → Action (Logged S) A
  apply_method class_name property_key original s =
      let ran = original (set_context (context_of class_name property_key) s) in
      (ran.0, set_context s.context ran.1)

-- Calls of asynchronous methods on one object, which begin and end at any time. A call remembers the
-- context that it found; a number tells the calls apart.
pub record Call : Type 0 where
  pub id : ℕ
  pub original_context : Text

-- A method of the context that its caller sets begins, or a call ends.
pub data CallEvent : Type 0 where
  begins : ℕ → Text → CallEvent
  ends : ℕ → CallEvent

pub record Calls : Type 0 where
  pub context : Text
  pub open_calls : List Call

abbrev pub is_call : ℕ → Call → Bool
is_call id c = c.id == id

abbrev pub drop_call : ℕ → List Call → List Call
drop_call id [] = []
drop_call id (c ∷ cs) = if c.id == id then cs else c ∷ drop_call id cs

abbrev pub finish : ℕ → Option Call → Calls → Calls
finish id none s = s
finish id (some c) s = record {
  context = c.original_context;
  open_calls = drop_call id s.open_calls;
}

unfoldable pub on_call : CallEvent → Calls → Calls
on_call (begins id context) s = record {
  context = context;
  open_calls = record { id = id; original_context = s.context } ∷ s.open_calls;
}
on_call (ends id) s = finish id (find_one (is_call id) s.open_calls) s

unfoldable pub run_calls : List CallEvent → Calls → Calls
run_calls [] s = s
run_calls (e ∷ es) s = run_calls es (on_call e s)
