-- ===== src/HttpException/Answers.antt =====
-- What the answer to a failed request says, and what it keeps to itself.
use nft_tracker.Prelude.{
  ℕ, ◌≤◌, ◌≡◌, refl, Text, text, Option, some, true, false, leb, ◌===◌, includes, Bool-cases, inl,
  inr, subst, arith,
}
use nft_tracker.Store.Exec.{ok}
use nft_tracker.Percent.{decode_uri_component}
use nft_tracker.HttpException.{
  Exception, HttpExceptionResponse, Answer, json, status_of, not_found, server_error, client_error,
  answer_at, answer_decoded, catch,
}

pub data IsJson (path : Text) : Answer → Type 0 where
  is_json :
      (a : Answer) (r : HttpExceptionResponse)
      → a.body ≡ json r
      → r.status_code ≡ a.status
      → r.path ≡ path
      → IsJson path a

le→leb : {k : ℕ} → 500 ≤ k → leb 500 k ≡ true
le→leb h = ground arith

module _ (now : ℕ) (status_name : ℕ → Option Text) where
  answer_at-IsJson : (path : Text) (e : Exception) → IsJson path (answer_at now status_name path e)
  unfolding answer_at not_found server_error client_error
  answer_at-IsJson path e = elim (Bool-cases (e.name === text "EntityNotFoundError")) [
    | inl t ↦ rw t (is_json _ _ refl refl refl)
    | inr t ↦ rw t (elim (Bool-cases (leb 500 (status_of e.http))) [
      | inl u ↦ rw u (is_json _ _ refl refl refl)
      | inr u ↦ rw u (is_json _ _ refl refl refl)
    ])
  ]

  -- A request outside the reports on health whose address can be decoded is answered, whatever the
  -- exception: with an object that names the code of the answer and the address.
  pub catch-IsJson :
      (url path : Text) (e : Exception)
      → includes (text "/health") url ≡ false
      → decode_uri_component url ≡ some path
      → (a : Answer) × (catch now status_name url e ≡ ok a) × IsJson path a
  unfolding catch answer_decoded
  catch-IsJson url path e outside decoded =
      (answer_at now status_name path e, rw outside (rw decoded refl), answer_at-IsJson path e)

  -- Of a failure of the server, with a code from 500 on, the answer shows nothing but the code: two
  -- exceptions with the same code, however they differ in their messages and responses, are answered
  -- alike. The missing rows that TypeORM reports and the reports on health are left out.
  pub catch_hides :
      (url path : Text) (e e' : Exception)
      → includes (text "/health") url ≡ false
      → decode_uri_component url ≡ some path
      → (e.name === text "EntityNotFoundError") ≡ false
      → (e'.name === text "EntityNotFoundError") ≡ false
      → 500 ≤ status_of e.http
      → status_of e.http ≡ status_of e'.http
      → (a a' : Answer) × (catch now status_name url e ≡ ok a)
        × (catch now status_name url e' ≡ ok a')
        × (a.status ≡ a'.status)
        × (a.body ≡ a'.body)
  unfolding catch answer_decoded answer_at server_error
  catch_hides url path e e' outside decoded n n' h same = (
    server_error now status_name path e,
    server_error now status_name path e',
    rw outside (rw decoded (rw n (rw (le→leb h) refl))),
    rw outside (rw decoded (rw n' (rw (le→leb (subst (λ k. 500 ≤ k) same h)) refl))),
    same,
    rw same refl,
  )
