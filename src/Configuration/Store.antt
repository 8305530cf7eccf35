-- ===== src/Configuration/Store.antt =====
-- The copy in memory against the active entries of the table.
use mathlib.Core.Bool.{false≢true}
use nft_tracker.Prelude.{
  ◌≡◌, refl, sym, ap, ◌∙◌, Text, Option, none, some, Bool, true, false, List, [], ◌∷◌, ◌===◌, ◌&&◌,
  ◌⊎◌, inl, inr, All, ===_refl, eq_of_===, Bool-cases, if◌then◌else◌, arith,
}
use nft_tracker.Store.Entities.{Json}
use nft_tracker.Store.World.{Error}
use nft_tracker.Store.Exec.{Result, ok, err}
use nft_tracker.Action.{go_on, gets, ◌>>◌}
use nft_tracker.Configuration.{
  ConfigurationEntity, Configurations, Tools, set, read, check, after, collect, load, get,
}

-- What the table says of a key: the value of its last active entry.
unfoldable pub active_value : Option Json → Text → List ConfigurationEntity → Option Json
active_value acc key [] = acc
active_value acc key (c ∷ cs) =
    active_value (if c.active && c.key === key then some c.value else acc) key cs

abbrev pub setting : Text → List ConfigurationEntity → Option Json
setting = active_value none

read-set :
    (key : Text) (conf : ConfigurationEntity) (store : List ConfigurationEntity)
    → read key (set conf store) ≡ (if conf.key === key then some conf.value else read key store)
unfolding set
read-set key conf [] = elim (Bool-cases (conf.key === key)) [
  | inl e ↦ rw e refl
  | inr e ↦ rw e refl
]
read-set key conf (c ∷ cs) = elim (Bool-cases (c.key === conf.key)) [
  | inl same ↦ replaced same
  | inr other ↦
      kept other (Bool-cases (c.key === key)) (Bool-cases (conf.key === key)) (read-set key conf cs)
]
  where
    replaced :
        c.key === conf.key ≡ true
        → read key (set conf (c ∷ cs))
          ≡ (if conf.key === key then some conf.value else read key (c ∷ cs))
    replaced same =
        let agree : c.key === key ≡ conf.key === key =
          ap (λ k. k === key) (eq_of_=== c.key conf.key same) in
        ground (arith, same, agree)

    kept :
        c.key === conf.key ≡ false
        → (c.key === key ≡ true) ⊎ (c.key === key ≡ false)
        → (conf.key === key ≡ true) ⊎ (conf.key === key ≡ false)
        → read key (set conf cs) ≡ (if conf.key === key then some conf.value else read key cs)
        → read key (set conf (c ∷ cs))
          ≡ (if conf.key === key then some conf.value else read key (c ∷ cs))
    kept other (inl h) (inl t) ih =
        let joined = eq_of_=== c.key key h ∙ sym (eq_of_=== conf.key key t) in
        absurd (false≢true (sym other ∙ ap (λ k. c.key === k) (sym joined) ∙ ===_refl c.key))
    kept other (inl h) (inr t) ih = rw (other, t, h) refl
    kept other (inr h) there ih = rw (other, h) ih

ok-injective : {A : Type 0} {a b : A} → ok a ≡ ok b → a ≡ b
ok-injective e = cc

after-ok : {A : Type 0} (r : Result (Unit {0})) (x : Result A) {a : A} → after r x ≡ ok a → x ≡ ok a
after-ok (ok u) x e = e
after-ok (err u) x e = cc

written :
    (b : Bool) (key : Text) (c : ConfigurationEntity) (store : List ConfigurationEntity)
    → read key (if b then set c store else store)
      ≡ (if b && c.key === key then some c.value else read key store)
written true key c store = read-set key c store
written false key c store = refl

module _ (tools : Tools) where
  -- What the loop of `load` ends with: the entries read so far, overwritten by the active ones.
  collect-reads :
      (key : Text) (confs store : List ConfigurationEntity) {out : List ConfigurationEntity}
      → collect tools confs store ≡ ok out
      → read key out ≡ active_value (read key store) key confs
  unfolding collect active_value
  collect-reads key [] store e = ap (read key) (sym (ok-injective e))
  collect-reads key (c ∷ cs) store {out} e =
      collect-reads key cs (if c.active then set c store else store) (after-ok (check tools c) _ e)
      ∙ ap (λ acc. active_value acc key cs) (written c.active key c store)

  collect-ok :
      (confs store : List ConfigurationEntity)
      → All (λ c. check tools c ≡ ok tt) confs
      → (out : List ConfigurationEntity) × (collect tools confs store ≡ ok out)
  unfolding collect
  collect-ok [] store h = (store, refl)
  collect-ok (c ∷ cs) store (hc, h) =
      let (out, e) = collect-ok cs (if c.active then set c store else store) h in
      (out, rw (hc, e) refl)

-- The copy is loaded, and every key reads in it as in the table.
pub record Synced (s : Configurations) : Type 0 where
  pub loaded : s.loaded ≡ true
  pub reads : (key : Text) → read key s.store ≡ setting key s.table

abbrev pub AllChecked : Tools → List ConfigurationEntity → Type 0
AllChecked tools = All (λ c. check tools c ≡ ok tt)

module _ (tools : Tools) where
  after_load :
      (r : Result (List ConfigurationEntity)) (s : Configurations)
      → collect tools s.table [] ≡ r
      → load tools s ≡ go_on r (λ store s'. (ok tt, record s' { store = store; loaded = true })) s
  unfolding load
  after_load r s e = rw e refl

  load-store :
      (s : Configurations) {out : List ConfigurationEntity}
      → collect tools s.table [] ≡ ok out
      → load tools s ≡ (ok tt, record s { store = out; loaded = true })
  load-store s e = after_load _ s e

  pub Synced-store :
      (s : Configurations) {out : List ConfigurationEntity}
      → collect tools s.table [] ≡ ok out
      → Synced (record s { store = out; loaded = true })
  Synced-store s e = record { loaded = refl; reads = λ key. collect-reads tools key s.table [] e }

  -- Loading is all or nothing: it returns with a copy that reads as the table does, or throws and
  -- leaves everything as it is.
  pub load_atomic :
      (s : Configurations)
      → (((load tools s).0 ≡ ok tt) × Synced (load tools s).1)
        ⊎ ((e : Error) × (load tools s ≡ (err e, s)))
  load_atomic s = cases (collect tools s.table []) refl
    where
      cases :
          (r : Result (List ConfigurationEntity))
          → collect tools s.table [] ≡ r
          → (((load tools s).0 ≡ ok tt) × Synced (load tools s).1)
            ⊎ ((e : Error) × (load tools s ≡ (err e, s)))
      cases (ok out) found = inl (rw (load-store s found) (refl, Synced-store s found))
      cases (err e) found = inr (e, after_load (err e) s found)

  -- The table that every active entry of which is valid loads.
  pub load-Synced :
      (s : Configurations)
      → AllChecked tools s.table
      → (s' : Configurations) × (load tools s ≡ (ok tt, s')) × (s'.table ≡ s.table) × Synced s'
  load-Synced s h =
      let (out, found) = collect-ok tools s.table [] h in
      (record s { store = out; loaded = true }, load-store s found, refl, Synced-store s found)

  -- From there on each key is answered with what the table says, and nothing changes.
  abbrev pub Serves : List ConfigurationEntity → Configurations → Type 0
  Serves table s = (key : Text) → get tools key s ≡ (ok (setting key table), s)

  Serves-Synced : (s : Configurations) → Synced s → Serves s.table s
  unfolding get
  Serves-Synced s h key = simp (h.loaded) (ap (λ v. (ok v, s)) (h.reads key))

  abbrev pub FirstAnswer : Text → Configurations → Result (Option Json) × Configurations → Type 0
  FirstAnswer key s r =
      ((r.0 ≡ ok (setting key s.table)) × Serves s.table r.1)
      ⊎ ((e : Error) × (r ≡ (err e, s)) × (AllChecked tools s.table → ⊥))

  get-load :
      (key : Text) (s : Configurations)
      → s.loaded ≡ false
      → get tools key s ≡ (load tools >> gets (λ s. read key s.store)) s
  unfolding get
  get-load key s unloaded = simp (unloaded) refl

  -- The first `get` of a service that has not loaded yet either answers with what the table says of
  -- the key, the value of its last active entry, and from then on every key is answered so without a
  -- change; or it throws and changes nothing, and then some active entry of the table is not valid.
  pub get_refines :
      (key : Text) (s : Configurations) → s.loaded ≡ false → FirstAnswer key s (get tools key s)
  get_refines key s unloaded = cases (collect tools s.table []) refl
    where
      cases :
          (r : Result (List ConfigurationEntity))
          → collect tools s.table [] ≡ r
          → FirstAnswer key s (get tools key s)
      cases (ok out) found =
          let synced = Synced-store s found in
          rw (get-load key s unloaded, load-store s found)
            (inl (ap ok (synced.reads key), Serves-Synced _ synced))
      cases (err e) found =
          rw (get-load key s unloaded, after_load (err e) s found)
            (inr
              (e, refl, λ h. let (out, fine) = collect-ok tools s.table [] h in cc (fine, found)))
