-- ===== src/Jobs/FetchMetadata/Stale.antt =====
-- New metadata for a token whose media had been copied before.
use nft_tracker.Prelude.{
  ℕ, ◌≡◌, refl, ap, ◌∙◌, Text, Option, none, some, Bool, true, false, List, [], ◌∷◌, is_some,
  is_empty, ◌&&◌, ◌===◌, All, get_elem?, get_elem?-update_where, change, if◌then◌else◌,
}
use nft_tracker.Store.Entities.{Json, Token, TokenAsset, Contract}
use nft_tracker.Store.World.{World}
use nft_tracker.Store.Exec.{ok, write, ◌>>=◌}
use nft_tracker.Store.Env.{Env}
use nft_tracker.Store.Tables.{has_token_key, update_tokens}
use nft_tracker.Jobs.FetchMetadata.{TokenKey, asset_of, set_metadata, update_metadata_token}
use nft_tracker.Jobs.FetchMetadata.Payload.{SanitizedPayload, sanitize_payload}
use nft_tracker.Jobs.UploadAsset.{waits_for_media}

and_false : (b c : Bool) → c ≡ false → (b && c) ≡ false
and_false true c h = h
and_false false c h = refl

-- No asset is a copy of this image.
abbrev pub HasNoCopy : Text → List TokenAsset → Type 0
HasNoCopy image = All (λ a. (a.raw_url === image) ≡ false)

asset_of-HasNoCopy :
    (image : Text) (assets : List TokenAsset)
    → HasNoCopy image assets
    → asset_of image assets ≡ none
asset_of-HasNoCopy image [] h = refl
asset_of-HasNoCopy image (a ∷ assets) (e, h) = rw e (asset_of-HasNoCopy image assets h)

none_found :
    (image : Text) (assets : List TokenAsset)
    → HasNoCopy image assets
    → (if is_empty image then none else asset_of image assets) ≡ none
none_found [] assets h = refl
none_found (c ∷ image) assets h = asset_of-HasNoCopy (c ∷ image) assets h

module _ (env : Env) where
  -- A token shows the image of its new metadata and is marked as without media, yet has the copy and
  -- the job of the image before, and does not wait for a copy, whatever the contracts.
  pub record IsStale (image : Text) (before after : Token) : Type 0 where
    pub image_raw_url : after.image_raw_url ≡ some image
    pub has_asset : after.has_asset ≡ false
    pub asset_id : after.asset_id ≡ before.asset_id
    pub asset_token_job_id : after.asset_token_job_id ≡ before.asset_token_job_id
    pub waits : (contracts : List Contract) → waits_for_media env contracts after ≡ false

  set_metadata-IsStale :
      (p : SanitizedPayload) (t : Token)
      → is_some t.asset_token_job_id ≡ true
      → IsStale p.image_raw_url t (set_metadata p none none t)
  unfolding set_metadata waits_for_media
  set_metadata-IsStale p t has_job = record {
    image_raw_url = refl;
    has_asset = refl;
    asset_id = refl;
    asset_token_job_id = refl;
    waits = λ contracts. rw has_job (and_false _ false refl);
  }

  updated :
      (key : TokenKey) (payload : Option Json) (w : World)
      → HasNoCopy (sanitize_payload env.is_url payload).image_raw_url w.db.assets
      → update_metadata_token env key payload w ≡ (
        ok tt,
        record w {
          db =
              update_tokens
                (has_token_key key.address key.chain_id key.token_id)
                (set_metadata (sanitize_payload env.is_url payload) none none)
                w.db;
        },
      )
  unfolding update_metadata_token write ◌>>=◌
  updated key payload w h =
      let image = (sanitize_payload env.is_url payload).image_raw_url in
      rw (none_found image w.db.assets h) refl

  -- New metadata is written to a token that has a job for the copy of its image, and no asset is a copy
  -- of the new image. The write returns, and the row of the token shows the new image and is marked as
  -- without media, but it keeps the old copy and the old job; it does not wait for a copy any more,
  -- whatever the contracts, so that no job is made for the new image.
  pub update_metadata_token-IsStale :
      (key : TokenKey) (payload : Option Json) (w : World) (i : ℕ) {t : Token}
      → let image = (sanitize_payload env.is_url payload).image_raw_url in
        HasNoCopy image w.db.assets
        → get_elem? w.db.tokens i ≡ some t
        → has_token_key key.address key.chain_id key.token_id t ≡ true
        → is_some t.asset_token_job_id ≡ true
        → let r = update_metadata_token env key payload w in
          (r.0 ≡ ok tt)
          × (after : Token) × (get_elem? r.1.db.tokens i ≡ some after)
          × IsStale image t after
  unfolding update_tokens
  update_metadata_token-IsStale key payload w i {t} no_copy there is_key has_job =
      let p = sanitize_payload env.is_url payload in
      let has_key = has_token_key key.address key.chain_id key.token_id in
      let f = set_metadata p none none in
      let moved : change has_key f t ≡ f t = rw is_key refl in
      rw (updated key payload w no_copy) (
        refl,
        f t,
        get_elem?-update_where has_key f w.db.tokens i there ∙ ap some moved,
        set_metadata-IsStale p t has_job,
      )
