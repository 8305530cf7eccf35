-- ===== src/HttpException.antt =====
-- common/filters/http-exception.filter.ts and common/exceptions/http-with-payload.exception.ts: what a
-- request that ends in an exception is answered with. The clock and the names of the codes (the enum
-- HttpStatus of Nest) are parameters. `data` is the payload of an exception where it is truthy.
pub mod Answers
use nft_tracker.Prelude.{
  ℕ, Text, text, Option, none, some, Bool, true, false, List, [], ◌∷◌, ◌++◌, ◌==◌, ◌===◌, leb,
  or_else, is_empty, is_some, not, select, includes, before_part, trim, if◌then◌else◌,
}
use nft_tracker.Store.Entities.{Json}
use nft_tracker.Store.World.{Error}
use nft_tracker.Store.Exec.{Result, ok, err}
use nft_tracker.Contracts.{to_decimal}
use nft_tracker.Percent.{decode_uri_component}

-- A message is a text, or a list of them, as the validation of a request makes.
pub data Message : Type 0 where
  line : Text → Message
  lines : List Text → Message

-- what `getResponse` of an HttpException returns
pub data HttpResponse : Type 0 where
  plain : Text → HttpResponse
  payload :
      (error : Option Message) (message : Option Message) (custom : Option Json) → HttpResponse

pub record HttpStatus : Type 0 where
  pub status : ℕ
  pub response : HttpResponse

pub record AxiosInfo : Type 0 where
  pub base_url : Option Text
  pub url : Option Text
  pub method : Option Text

pub record Exception : Type 0 where
  pub name : Text
  pub message : Text
  -- for an HttpException
  pub http : Option HttpStatus
  -- for an AxiosError
  pub axios : Option AxiosInfo

pub record HttpExceptionResponse : Type 0 where
  pub timestamp : ℕ
  pub path : Text
  pub error : Message
  pub status_code : ℕ
  pub message : Option Message
  pub custom : Option Json

pub data Body : Type 0 where
  -- the report on the health of the program, or the exception itself
  report : Option HttpResponse → Exception → Body
  json : HttpExceptionResponse → Body

pub record Answer : Type 0 where
  pub status : ℕ
  pub body : Body
  -- what is written to the log
  pub logged : Option Text

-- `HttpWithPayloadException`: the payload is put beside what the response holds
unfoldable pub make_custom_response : HttpResponse → Option Json → HttpResponse
make_custom_response (plain s) custom = payload none none custom
make_custom_response (payload error message old) custom = payload error message custom

-- whether `||` takes a value
is_truthy : Message → Bool
is_truthy (line s) = not (is_empty s)
is_truthy (lines ss) = true

or_next : Option Message → Message → Message
unfolding is_truthy
or_next none m = m
or_next (some m') m = if is_truthy m' then m' else m

unfoldable pub status_of : Option HttpStatus → ℕ
status_of none = 500
status_of (some h) = h.status

-- `${value}`
shown : Option Text → Text
shown none = text "undefined"
shown (some s) = s

-- `url && baseURL ? … : undefined`
full_url : Option Text → Option Text → Option Text
full_url (some b) (some u) = if is_empty b then none else if is_empty u then none else some (b ++ u)
full_url _ _ = none

unfoldable pub extract_axios_error_message : Text → Option AxiosInfo → Text
unfolding shown full_url
extract_axios_error_message message none = message
extract_axios_error_message message (some a) =
    message ++ (text " - " ++ (shown a.method ++ (text " " ++ shown (full_url a.base_url a.url))))

-- `message.split(' matching: ')[0].replace(/"/g, '').trim()`
unfoldable pub entity_type : Text → Text
unfolding trim
entity_type message =
    trim (select (λ c. not (c == b'"')) (before_part (text " matching: ") message))

response_of : Option HttpStatus → Option HttpResponse
response_of none = none
response_of (some h) = some h.response

-- the branch below 500, where the exception is an HttpException
error_of : ℕ → Option HttpResponse → Message
unfolding or_next
error_of status (some (payload error message custom)) =
    or_next error (or_next message (line (to_decimal status)))
error_of status _ = line (to_decimal status)

message_of : Option HttpResponse → Option Message
message_of (some (plain s)) = some (line s)
message_of (some (payload error message custom)) = message
message_of none = none

custom_of : Option HttpResponse → Option Json
custom_of (some (payload error message custom)) = custom
custom_of _ = none

module _ (now : ℕ) (status_name : ℕ → Option Text) where
  not_found : Text → Exception → Answer
  not_found path e = record {
    status = 404;
    body = json (record {
      timestamp = now;
      path = path;
      error = line (text "Not Found");
      status_code = 404;
      message = some (line (text "Could not find any entity of type " ++ entity_type e.message));
      custom = none;
    });
    logged = none;
  }

  server_error : Text → Exception → Answer
  server_error path e =
      let error = or_else (status_name (status_of e.http)) (text "Server Error") in
      record {
        status = status_of e.http;
        body = json (record {
          timestamp = now;
          path = path;
          error = line error;
          status_code = status_of e.http;
          message = some (line error);
          custom = none;
        });
        logged = some (extract_axios_error_message e.message e.axios);
      }

  client_error : Text → Exception → Answer
  unfolding error_of message_of custom_of response_of
  client_error path e = record {
    status = status_of e.http;
    body = json (record {
      timestamp = now;
      path = path;
      error = error_of (status_of e.http) (response_of e.http);
      status_code = status_of e.http;
      message = message_of (response_of e.http);
      custom = custom_of (response_of e.http);
    });
    logged = none;
  }

  unfoldable pub answer_at : Text → Exception → Answer
  unfolding not_found server_error client_error
  answer_at path e =
      if e.name === text "EntityNotFoundError"
      then not_found path e
      else if leb 500 (status_of e.http)
      then server_error path e
      else client_error path e

  answer_decoded : Option Text → Exception → Result Answer
  answer_decoded none e = err (Error.message (text "URI malformed"))
  answer_decoded (some path) e = ok (answer_at path e)

  unfoldable pub catch : Text → Exception → Result Answer
  unfolding answer_decoded response_of
  catch url e =
      if includes (text "/health") url
      then ok (record {
        status = status_of e.http;
        body = report (response_of e.http) e;
        logged = none;
      })
      else answer_decoded (decode_uri_component url) e
