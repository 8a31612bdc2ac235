-- ===== src/BackingImage/Client.antt =====
-- The calls of ProxyClient on backing images, pkg/client/proxy_backing_image.go, with the
-- conversions of pkg/api/backing_image.go.
use longhorn_engine_launcher.Prelude.{ℕ, ◌==◌, Option, none, some, List, [], ◌∷◌, if◌then◌else◌}
use longhorn_engine_launcher.Prelude.Int.{ℤ}
use longhorn_engine_launcher.Prelude.Text.{Text, codes}
use longhorn_engine_launcher.Rpc.{plain, wrapped, Result, value, failure, panics, fail_wrapped}
use longhorn_engine_launcher.Client.{missing}
use longhorn_engine_launcher.ProxyClient.{any_empty}
use longhorn_engine_launcher.BackingImage.{
  CreateRequest, BackingImageSpec, BackingImageStatus, BackingImageResponse,
}

-- BackingImage of pkg/api, its status among the fields.
pub record BackingImage : Type 0 where
  pub name : Text
  pub backing_image_uuid : Text
  pub disk_uuid : Text
  pub size : ℕ
  pub expected_checksum : Text
  pub progress : ℤ
  pub state : Text
  pub current_checksum : Text
  pub error_msg : Text

-- A status that is nil is dereferenced.
unfoldable pub image_from :
    Option BackingImageSpec → Option BackingImageStatus → Result BackingImage
image_from none status = failure (plain (codes "backing image spec is nil"))
image_from (some spec) none = panics
image_from (some spec) (some status) = value (record {
  name = spec.name;
  backing_image_uuid = spec.backing_image_uuid;
  disk_uuid = spec.disk_uuid;
  size = spec.size;
  expected_checksum = spec.checksum;
  progress = status.progress;
  state = status.state;
  current_checksum = status.checksum;
  error_msg = status.error_msg;
})

-- RPCToBackingImage.
unfoldable pub rpc_to_backing_image : Option BackingImageResponse → Result BackingImage
unfolding image_from
rpc_to_backing_image none = failure (plain (codes "cannot convert nil SPDKBackingImageResponse"))
rpc_to_backing_image (some r) = image_from r.spec r.status

-- An entry that cannot be converted is nil in the answer.
unfoldable pub entry_before :
    Text
    → Result BackingImage
    → Result (List (Text × Option BackingImage))
    → Result (List (Text × Option BackingImage))
entry_before name (value bi) (value rest) = value ((name, some bi) ∷ rest)
entry_before name (failure e) (value rest) = value ((name, none) ∷ rest)
entry_before name panics (value rest) = panics
entry_before name bi (failure e) = failure e
entry_before name bi panics = panics

-- RPCToBackingImageList.
unfoldable pub rpc_to_backing_image_list :
    List (Text × Option BackingImageResponse) → Result (List (Text × Option BackingImage))
unfolding entry_before rpc_to_backing_image
rpc_to_backing_image_list [] = value []
rpc_to_backing_image_list ((name, r) ∷ rest) =
    entry_before name (rpc_to_backing_image r) (rpc_to_backing_image_list rest)

-- The part of rpc.ProxyEngineServiceClient for backing images.
pub record BackingImageService (W : Type 0) : Type 0 where
  pub create : CreateRequest → W → W × Result BackingImageResponse
  pub delete : Text → Text → W → W × Result (Unit {0})
  pub get : Text → Text → W → W × Result BackingImageResponse
  pub list : W → W × Result (List (Text × Option BackingImageResponse))

abbrev pub convert_with : {W A C : Type 0} → (A → Result C) → W × Result A → W × Result C
convert_with f (w, value a) = (w, f a)
convert_with f (w, failure e) = (w, failure e)
convert_with f (w, panics) = (w, panics)

-- The check of the required parameters. An error of the call itself is not wrapped.
unfoldable pub required : {W A : Type 0} → List Text → (W → W × Result A) → W → W × Result A
unfolding any_empty
required parameters f w = if any_empty parameters then (w, failure (wrapped missing)) else f w

module _ {W : Type 0} (S : BackingImageService W) where
  unfoldable pub client_backing_image_create : CreateRequest → W → W × Result BackingImage
  unfolding required rpc_to_backing_image
  client_backing_image_create q w =
      required (q.name ∷ q.backing_image_uuid ∷ q.checksum ∷ q.disk_uuid ∷ [])
        (λ x.
          if q.size == 0
          then (x, failure (plain (codes "size should not be zero")))
          else convert_with (λ r. rpc_to_backing_image (some r)) (BackingImageService.create S q x))
        w

  unfoldable pub client_backing_image_delete : Text → Text → W → W × Result (Unit {0})
  unfolding required
  client_backing_image_delete name disk_uuid w =
      required (name ∷ disk_uuid ∷ []) (BackingImageService.delete S name disk_uuid) w

  unfoldable pub client_backing_image_get : Text → Text → W → W × Result BackingImage
  unfolding required rpc_to_backing_image
  client_backing_image_get name disk_uuid w =
      required (name ∷ disk_uuid ∷ [])
        (λ x.
          convert_with (λ r. rpc_to_backing_image (some r))
            (BackingImageService.get S name disk_uuid x))
        w

  unfoldable pub client_backing_image_list : W → W × Result (List (Text × Option BackingImage))
  unfolding rpc_to_backing_image_list
  client_backing_image_list w =
      convert_with rpc_to_backing_image_list (fail_wrapped (BackingImageService.list S w))
