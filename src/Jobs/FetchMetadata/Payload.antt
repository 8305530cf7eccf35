-- ===== src/Jobs/FetchMetadata/Payload.antt =====
-- `sanitizePayload` of tokens-jobs-fetch-metadata.service.ts: what is kept of the metadata that an
-- address answered with.
use nft_tracker.Prelude.{
  suc, Text, text, Option, none, some, Bool, true, false, [], ◌===◌, is_empty, or_else,
  if◌then◌else◌,
}
use nft_tracker.Uri.{sanitize_uri}
use nft_tracker.Store.Entities.{Json, str, arr, obj, Fields, end, field}

pub record SanitizedPayload : Type 0 where
  pub name : Text
  pub description : Text
  pub external_url : Text
  pub image_raw_url : Text
  pub metadata : Json

-- `payload[key]`
unfoldable pub get_field : Text → Fields → Option Json
get_field key end = none
get_field key (field k value more) = if k === key then some value else get_field key more

abbrev as_string : Option Json → Option Text
as_string (some (str s)) = some s
as_string _ = none

abbrev otherwise : Option Text → Option Text → Option Text
otherwise (some a) b = some a
otherwise none b = b

abbrev string_at : Fields → Text → Option Text
string_at fields key = as_string (get_field key fields)

-- the chain of `isString` tests, in its order
unfoldable pub image_of : Fields → Option Text
unfolding get_field
image_of fields = otherwise (string_at fields (text "image")) (
    otherwise (string_at fields (text "image_url")) (
      otherwise (string_at fields (text "imageUrl")) (
        otherwise (string_at fields (text "animation_url"))
          (string_at fields (text "animationUrl")))))

abbrev pub no_payload : SanitizedPayload
no_payload = record {
  name = [];
  description = [];
  external_url = [];
  image_raw_url = [];
  metadata = obj end;
}

module _ (is_url : Text → Bool) where
  abbrev sanitize_image : Text → Text
  sanitize_image image = if is_empty image then image else sanitize_uri is_url image

  unfoldable pub sanitize_payload : Option Json → SanitizedPayload
  unfolding image_of
  sanitize_payload (some (obj (field k value more))) =
      let fields = field k value more in
      record {
        name = or_else (string_at fields (text "name")) [];
        description = or_else (string_at fields (text "description")) [];
        external_url =
            or_else
              (otherwise (string_at fields (text "external_url"))
                (string_at fields (text "externalUrl")))
              [];
        image_raw_url = sanitize_image (or_else (image_of fields) []);
        metadata = obj fields;
      }
  -- an array that is not empty has keys, and none of those that are read
  sanitize_payload (some (arr (suc n))) = record no_payload { metadata = arr (suc n) }
  sanitize_payload _ = no_payload

-- `isNotEmptyObject` of class-validator: not true of an array
unfoldable pub is_not_empty_object : Json → Bool
is_not_empty_object (obj (field k value more)) = true
is_not_empty_object _ = false
