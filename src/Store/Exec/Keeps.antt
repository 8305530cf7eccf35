-- ===== src/Store/Exec/Keeps.antt =====
-- Invariants of actions: one rule for each way to build an action.
use mathlib.Core.Bool.{false≢true}
use nft_tracker.Prelude.{
  ℕ, suc, ◌≡◌, refl, sym, ap, ◌∙◌, subst, is_some, Bool, true, false, Option, none, some, List, [],
  ◌∷◌, if◌then◌else◌, All, Bool-cases, inl, inr,
}
use nft_tracker.Store.World.{Db, World, Error, aggregate}
use nft_tracker.Store.Exec.{
  Result, ok, err, Exec, Connection, repository, runner, pure, throw, lift, gets, ask, try_catch,
  write, modify, ◌>>=◌, run_transaction, applied, joined, settle, attempt, run_all, parallel,
  has_failed, counted, caught, go_on, is_transaction_owner,
}

-- `m` keeps `P`, whether it returns or throws.
pub record Keeps {A : Type 0} (P : World → Type 0) (m : Exec A) : Type 0 where
  pub at : (w : World) → P w → P (m w).1

-- A property of the tables that holds of what is committed, and will hold after the commit of
-- what is pending.
pub record Holds (P : Db → Type 0) (w : World) : Type 0 where
  pub committed : P w.db
  pub after_commit : (d : Db) → P d → P (applied w.pending d)

-- While no transaction is open, only what is committed counts.
pub Holds-idle :
    (P : Db → Type 0) (d : Db) (w : World) → P d → Holds P (record w { db = d; pending = none })
unfolding applied
Holds-idle P d w h = record { committed = h; after_commit = λ d p. p }

module _ {A : Type 0} {P : World → Type 0} where
  pub Keeps-pure : (a : A) → Keeps P (pure a)
  unfolding pure
  Keeps-pure a = record { at = λ w h. h }

  pub Keeps-throw : (e : Error) → Keeps P (throw {A = A} e)
  unfolding throw
  Keeps-throw e = record { at = λ w h. h }

  pub Keeps-lift : (r : Result A) → Keeps P (lift r)
  unfolding lift
  Keeps-lift r = record { at = λ w h. h }

  pub Keeps-gets : (f : World → A) → Keeps P (gets f)
  unfolding gets
  Keeps-gets f = record { at = λ w h. h }

  pub Keeps-if : (b : Bool) (m n : Exec A) → Keeps P m → Keeps P n → Keeps P (if b then m else n)
  Keeps-if true m n km kn = km
  Keeps-if false m n km kn = kn

  pub Keeps-try_catch :
      (m : Exec A) (h : Error → Exec A)
      → Keeps P m
      → ((e : Error) → Keeps P (h e))
      → Keeps P (try_catch m h)
  unfolding try_catch
  Keeps-try_catch m h km kh = record { at = λ w p. let (r, w') = m w in handled r w' (km.at w p) }
    where
      handled : (r : Result A) (w' : World) → P w' → P (caught r h w').1
      handled (ok a) w' q = q
      handled (err e) w' q = (kh e).at w' q

module _ {A B : Type 0} {P : World → Type 0} where
  pub Keeps-bind :
      (m : Exec A) (f : A → Exec B) → Keeps P m → ((a : A) → Keeps P (f a)) → Keeps P (m >>= f)
  unfolding ◌>>=◌
  Keeps-bind m f km kf = record { at = λ w p. let (r, w') = m w in next r w' (km.at w p) }
    where
      next : (r : Result A) (w' : World) → P w' → P (go_on r f w').1
      next (ok a) w' q = (kf a).at w' q
      next (err e) w' q = q

  -- the rest of the block may use what the invariant says of the value that was read
  pub Keeps-bind-gets :
      (g : World → A) (f : A → Exec B) {Q : A → Type 0}
      → ((w : World) → P w → Q (g w))
      → ((a : A) → Q a → Keeps P (f a))
      → Keeps P (gets g >>= f)
  unfolding ◌>>=◌
  Keeps-bind-gets g f read kf = record { at = λ w p. (kf (g w) (read w p)).at w p }

module _ {P : Db → Type 0} where
  pub Keeps-ask : {A : Type 0} (answer : ℕ → A) → Keeps (Holds P) (ask answer)
  unfolding ask
  Keeps-ask answer = record {
    at = λ w h. record { committed = h.committed; after_commit = h.after_commit };
  }

  -- the rest of the block may use that the answer was given at some tick
  pub Keeps-bind-ask :
      {A B : Type 0} (answer : ℕ → A) (f : A → Exec B)
      → ((tick : ℕ) → Keeps (Holds P) (f (answer tick)))
      → Keeps (Holds P) (ask answer >>= f)
  unfolding ◌>>=◌
  Keeps-bind-ask answer f kf = record {
    at = λ w h.
        (kf w.ticks).at (record w { ticks = suc w.ticks })
          (record { committed = h.committed; after_commit = h.after_commit });
  }

  pub Keeps-modify :
      (f : World → World)
      → ((w : World) → (f w).db ≡ w.db)
      → ((w : World) → (f w).pending ≡ w.pending)
      → Keeps (Holds P) (modify f)
  unfolding modify
  Keeps-modify f same_db same_pending = record {
    at = λ w h. record {
      committed = rw (same_db w) h.committed;
      after_commit = λ d p. rw (same_pending w) (h.after_commit d p);
    };
  }

  joined-Holds :
      (f : Db → Db) (w : World)
      → ((d : Db) → P d → P (f d))
      → Holds P w
      → (g : Option (Db → Db)) → w.pending ≡ g
      → Holds P (joined g f w)
  unfolding joined applied
  joined-Holds f w keep h none e = record {
    committed = keep w.db h.committed;
    after_commit = h.after_commit;
  }
  joined-Holds f w keep h (some g) e = record {
    committed = h.committed;
    after_commit = λ d p. keep (g d) (subst (λ o. P (applied o d)) e (h.after_commit d p));
  }

  pub Keeps-write :
      (c : Connection) (f : Db → Db) → ((d : Db) → P d → P (f d)) → Keeps (Holds P) (write c f)
  unfolding write
  Keeps-write repository f keep = record {
    at = λ w h. record { committed = keep w.db h.committed; after_commit = h.after_commit };
  }
  Keeps-write runner f keep = record { at = λ w h. joined-Holds f w keep h w.pending refl }

-- A transaction is open, and what is committed is `d`.
pub record Inside (d : Db) (w : World) : Type 0 where
  pub same : w.db ≡ d
  pub is_open : is_some w.pending ≡ true

module _ {d : Db} where
  -- what a runner writes inside a transaction is not committed
  pub Keeps-Inside-write : (f : Db → Db) → Keeps (Inside d) (write runner f)
  unfolding write
  Keeps-Inside-write f = record { at = λ w h. joins w h w.pending refl }
    where
      joins :
          (w : World)
          → Inside d w
          → (g : Option (Db → Db)) → w.pending ≡ g
          → Inside d (joined g f w)
      joins w h none e = absurd (false≢true (sym (ap is_some e) ∙ h.is_open))
      joins w h (some g) e = record { same = h.same; is_open = refl }

  -- a runner that is handed in does not end the transaction that is open on it
  pub Keeps-Inside_transaction :
      {R : Type 0} (m : Exec R) → Keeps (Inside d) m → Keeps (Inside d) (run_transaction true m)
  unfolding run_transaction
  Keeps-Inside_transaction m km = record { at = λ w h. rw h.is_open (km.at w h) }

module _ {R : Type 0} {P : Db → Type 0} where
  settle-Holds : (r : Result R) (w : World) → Holds P w → Holds P (settle (r, w)).1
  unfolding settle
  settle-Holds (ok r) w h = record {
    committed = h.after_commit w.db h.committed;
    after_commit = λ d p. p;
  }
  settle-Holds (err e) w h = record { committed = h.committed; after_commit = λ d p. p }

  pub Keeps-run_transaction :
      (given : Bool) (m : Exec R) → Keeps (Holds P) m → Keeps (Holds P) (run_transaction given m)
  unfolding run_transaction
  Keeps-run_transaction given m km = record {
    at = λ w h. elim (Bool-cases (is_transaction_owner given w)) [
      | inl owner ↦ rw owner (
          let begun = record w { pending = some (λ d. d) } in
          let (r, w') = m begun in
          settle-Holds r w'
            (km.at begun (record { committed = h.committed; after_commit = λ d p. p })))
      | inr joins ↦ rw joins (km.at w h)
    ];
  }

module _ {A : Type 0} {P : World → Type 0} (body : A → Exec ℕ) where
  run_all-Keeps :
      (xs : List A) (failed : Bool) (n : ℕ)
      → All (λ x. Keeps P (body x)) xs
      → Keeps P (run_all body xs failed n)
  unfolding run_all attempt
  run_all-Keeps [] failed n h =
      Keeps-if failed (throw aggregate) (pure n) (Keeps-throw _) (Keeps-pure n)
  run_all-Keeps (x ∷ xs) failed n (hx, h) =
      Keeps-bind _ _
        (Keeps-try_catch _ _ (Keeps-bind _ _ hx (λ k. Keeps-pure _)) (λ e. Keeps-pure _))
        (λ r. run_all-Keeps xs (has_failed failed r) (counted n r) h)

  everywhere : ((x : A) → Keeps P (body x)) → (xs : List A) → All (λ x. Keeps P (body x)) xs
  everywhere h [] = tt
  everywhere h (x ∷ xs) = (h x, everywhere h xs)

  pub Keeps-parallel : (xs : List A) → ((x : A) → Keeps P (body x)) → Keeps P (parallel xs body)
  unfolding parallel
  Keeps-parallel xs h = run_all-Keeps xs false 0 (everywhere h xs)

pub ruleset keeps_rules = (
  Keeps-pure, Keeps-throw, Keeps-lift, Keeps-gets, Keeps-if, Keeps-try_catch, Keeps-bind-ask,
  Keeps-bind, Keeps-ask, Keeps-write, Keeps-run_transaction, Keeps-parallel,
)
