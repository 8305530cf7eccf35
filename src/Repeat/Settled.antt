-- ===== src/Repeat/Settled.antt =====
-- What is scheduled once a program has started twice.
use nft_tracker.Prelude.{
  ◌≡◌, refl, sym, ap, ◌∙◌, subst, Text, Bool, true, false, List, [], ◌∷◌, ◌++◌, ◌===◌, ◌⊎◌, inl,
  inr, leb, any, select, length, All, All-append, Bool-cases, ===_refl, eq_of_===, if◌then◌else◌,
}
use nft_tracker.Repeat.{
  Cron, Repeatable, RepeatQueue, IsRepeatQueue, has_id, remove_each,
  remove_dangling_repeatable_jobs, schedule_repeatable_job,
}
use nft_tracker.Repeat.Matches.{
  matches, Covered, two_or_more, matches_taken, Covered-matches, Covered-select, matches-nil,
  matches-append, All-select, any-matches, matches_id,
}

module _ {S : Type 0} (queue : RepeatQueue S) (key_of : Text → Text → Cron → Text)
    (laws : IsRepeatQueue queue key_of) where
  open queue use {get_repeatable_jobs}

  -- removing every job of a list that covers the number leaves none with it
  remove_each-nil :
      (id : Text) (ms : List Repeatable) (s : S)
      → Covered id ms (get_repeatable_jobs s)
      → matches id (get_repeatable_jobs (remove_each queue ms s)) ≡ []
  unfolding remove_each
  remove_each-nil id [] s h = matches-nil id (get_repeatable_jobs s) h
  remove_each-nil id (m ∷ ms) s h =
      remove_each-nil id ms (queue.remove_repeatable_by_key m.key s)
        (subst (Covered id ms) (sym (laws.remove_lem m.key s)) (Covered-select id m ms _ h))

  -- a key is used for one number alone
  abbrev pub KeyIsOwn : Text → Text → S → Type 0
  KeyIsOwn id key s = All (λ j. j.key === key ≡ true → j.id === id ≡ true) (get_repeatable_jobs s)

  abbrev scheduled : Text → Text → Cron → Repeatable
  scheduled name id cron = record { id = id; key = key_of name id cron }

  remove_each-KeyIsOwn :
      (id key : Text) (ms : List Repeatable) (s : S)
      → KeyIsOwn id key s
      → KeyIsOwn id key (remove_each queue ms s)
  unfolding remove_each
  remove_each-KeyIsOwn id key [] s h = h
  remove_each-KeyIsOwn id key (m ∷ ms) s h =
      remove_each-KeyIsOwn id key ms (queue.remove_repeatable_by_key m.key s) (
        subst (All (λ j. j.key === key ≡ true → j.id === id ≡ true)) (sym (laws.remove_lem m.key s))
          (All-select _ _ (get_repeatable_jobs s) h))

  module _ (name id : Text) (cron : Cron) where
    abbrev own_key : Text
    own_key = key_of name id cron

    abbrev job : Repeatable
    job = scheduled name id cron

    abbrev matched : S → List Repeatable
    matched s = matches id (get_repeatable_jobs s)

    abbrev Own : S → Type 0
    Own s = KeyIsOwn id own_key s

    add-matches :
        (s : S)
        → Own s
        → matched (queue.add name id cron s)
          ≡ (if any (λ j. j.key === own_key) (matched s) then matched s else matched s ++ job ∷ [])
    add-matches s own =
        ap (matches id) (laws.add_lem name id cron s)
        ∙ by_key (any (λ j. j.key === own_key) (get_repeatable_jobs s)) refl
      where
        by_key :
            (b : Bool)
            → any (λ j. j.key === own_key) (get_repeatable_jobs s) ≡ b
            → matches id (if b then get_repeatable_jobs s else get_repeatable_jobs s ++ job ∷ [])
              ≡ (if any (λ j. j.key === own_key) (matched s)
                  then matched s
                  else matched s ++ job ∷ [])
        by_key true e = rw (sym (any-matches id own_key (get_repeatable_jobs s) own) ∙ e) refl
        by_key false e = rw (sym (any-matches id own_key (get_repeatable_jobs s) own) ∙ e) (
            matches-append id (get_repeatable_jobs s) (job ∷ [])
            ∙ ap (λ l. matched s ++ l) (matches_taken id job [] (===_refl id)))

    add-Own : (s : S) → Own s → Own (queue.add name id cron s)
    add-Own s own =
        subst (All (λ j. j.key === own_key ≡ true → j.id === id ≡ true))
          (sym (laws.add_lem name id cron s))
          (by_key (any (λ j. j.key === own_key) (get_repeatable_jobs s)))
      where
        by_key :
            (b : Bool)
            → All
                (λ j. j.key === own_key ≡ true → j.id === id ≡ true)
                (if b then get_repeatable_jobs s else get_repeatable_jobs s ++ job ∷ [])
        by_key true = own
        by_key false = All-append _ (get_repeatable_jobs s) _ own ((λ e. ===_refl id), tt)

    -- no job with the number is there: the schedule is the only one afterwards
    add-settles : (s : S) → Own s → matched s ≡ [] → matched (queue.add name id cron s) ≡ job ∷ []
    add-settles s own none_ = add-matches s own ∙ rw none_ refl

    abbrev schedule : S → S
    schedule = schedule_repeatable_job queue name id cron

    schedule_few :
        (s : S) → leb (length (matched s)) 1 ≡ true → schedule s ≡ queue.add name id cron s
    unfolding schedule_repeatable_job remove_dangling_repeatable_jobs
    schedule_few s e =
        ap (λ b. queue.add name id cron (if b then s else remove_each queue (matched s) s)) e

    schedule_many :
        (s : S)
        → leb (length (matched s)) 1 ≡ false
        → schedule s ≡ queue.add name id cron (remove_each queue (matched s) s)
    unfolding schedule_repeatable_job remove_dangling_repeatable_jobs
    schedule_many s e =
        ap (λ b. queue.add name id cron (if b then s else remove_each queue (matched s) s)) e

    -- a single schedule stays
    schedule_settled : (s : S) → Own s → matched s ≡ job ∷ [] → matched (schedule s) ≡ job ∷ []
    schedule_settled s own e =
        ap matched (schedule_few s (ap (λ l. leb (length l) 1) e))
        ∙ add-matches s own
        ∙ rw e (rw (===_refl own_key) refl)

    schedule_clears :
        (s : S) → Own s → leb (length (matched s)) 1 ≡ false → matched (schedule s) ≡ job ∷ []
    schedule_clears s own many =
        ap matched (schedule_many s many)
        ∙ add-settles (remove_each queue (matched s) s)
            (remove_each-KeyIsOwn id own_key (matched s) s own)
            (remove_each-nil id (matched s) s (Covered-matches id (get_repeatable_jobs s)))

    schedule-Own : (s : S) → Own s → Own (schedule s)
    schedule-Own s own = elim (Bool-cases (leb (length (matched s)) 1)) [
      | inl e ↦ subst Own (sym (schedule_few s e)) (add-Own s own)
      | inr e ↦ subst Own (sym (schedule_many s e)) (
          add-Own (remove_each queue (matched s) s)
            (remove_each-KeyIsOwn id own_key (matched s) s own))
    ]

    Once : S → Type 0
    Once s = matched (schedule s) ≡ job ∷ []

    schedule-Once :
        (s : S) → Own s → (ms : List Repeatable) → matched s ≡ ms → Once s ⊎ Once (schedule s)
    unfolding Once
    schedule-Once s own [] e =
        inl (ap matched (schedule_few s (ap (λ l. leb (length l) 1) e)) ∙ add-settles s own e)
    schedule-Once s own (x ∷ y ∷ ms) e =
        inl (schedule_clears s own (ap (λ l. leb (length l) 1) e ∙ two_or_more (length ms)))
    schedule-Once s own (x ∷ []) e = elim (Bool-cases (x.key === own_key)) [
      | inl k ↦ inl (added ∙ rw (e, k) (same k))
      | inr k ↦
          inr
            (schedule_clears (schedule s) (schedule-Own s own) (ap (λ l. leb (length l) 1) (two k)))
    ]
      where
        added : matched (schedule s) ≡ (
            if any (λ j. j.key === own_key) (matched s) then matched s else matched s ++ job ∷ [])
        added = ap matched (schedule_few s (ap (λ l. leb (length l) 1) e)) ∙ add-matches s own

        two : x.key === own_key ≡ false → matched (schedule s) ≡ x ∷ job ∷ []
        two k = added ∙ rw (e, k) refl

        same : x.key === own_key ≡ true → x ∷ [] ≡ job ∷ []
        same k =
            let own_id =
              (subst (All (λ j. has_id id j ≡ true)) e (matches_id id (get_repeatable_jobs s))).0 in
            cc (eq_of_=== x.id id own_id, eq_of_=== x.key own_key k)

    -- However many schedules there were under the number, and whatever their expressions, once the
    -- program has started twice there is one, with the expression that it asks for. No other
    -- number is taken to use its key.
    pub schedule_repeatable_job_twice :
        (s : S)
        → KeyIsOwn id (key_of name id cron) s
        → select (has_id id) (
            get_repeatable_jobs (
              schedule_repeatable_job queue name id cron
                (schedule_repeatable_job queue name id cron s)))
          ≡ record { id = id; key = key_of name id cron } ∷ []
    unfolding Once
    schedule_repeatable_job_twice s own = elim (schedule-Once s own (matched s) refl) [
      | inl once ↦ schedule_settled (schedule s) (schedule-Own s own) once
      | inr twice ↦ twice
    ]
