-- ===== src/BackingImage.antt =====
-- Backing images of the SPDK engine: the requests of pkg/proxy/backing_image.go. The client of the
-- SPDK engine is a parameter.
pub mod Client
pub mod Passing
use longhorn_engine_launcher.Prelude.{ℕ, Option, none, some, List, [], ◌∷◌}
use longhorn_engine_launcher.Prelude.Int.{ℤ}
use longhorn_engine_launcher.Prelude.Text.{Text}
use longhorn_engine_launcher.Rpc.{internal, Result, value, failure, panics, answer_with, fail_as}
use longhorn_engine_launcher.Instance.Watch.{
  WatchEvent, WatchEnd, watch, NotifyEvent, handle_notify,
}

-- BackingImage of the SPDK engine's library, without the snapshot and the name of the store.
pub record SpdkBackingImage : Type 0 where
  pub name : Text
  pub backing_image_uuid : Text
  pub lvs_uuid : Text
  pub size : ℕ
  pub expected_checksum : Text
  pub progress : ℤ
  pub state : Text
  pub current_checksum : Text
  pub error_msg : Text

-- SPDKBackingImageCreateRequest.
pub record CreateRequest : Type 0 where
  pub name : Text
  pub backing_image_uuid : Text
  pub disk_uuid : Text
  pub size : ℕ
  pub checksum : Text
  pub from_address : Text
  pub src_lvs_uuid : Text

pub record BackingImageSpec : Type 0 where
  pub name : Text
  pub backing_image_uuid : Text
  pub disk_uuid : Text
  pub size : ℕ
  pub checksum : Text

pub record BackingImageStatus : Type 0 where
  pub progress : ℤ
  pub state : Text
  pub checksum : Text
  pub error_msg : Text

-- SPDKBackingImageResponse; `none` is a nil pointer.
pub record BackingImageResponse : Type 0 where
  pub spec : Option BackingImageSpec
  pub status : Option BackingImageStatus

-- The calls of the SPDK client, in the order of their arguments there.
pub record SpdkBackingImages (W : Type 0) : Type 0 where
  pub create : Text → Text → Text → ℕ → Text → Text → Text → W → W × Result SpdkBackingImage
  pub delete : Text → Text → W → W × Result (Unit {0})
  pub get : Text → Text → W → W × Result SpdkBackingImage
  pub list : W → W × Result (List (Text × SpdkBackingImage))

unfoldable pub spdk_backing_image_to_backing_image_response :
    SpdkBackingImage → BackingImageResponse
spdk_backing_image_to_backing_image_response bi = record {
  spec = some (record {
    name = bi.name;
    backing_image_uuid = bi.backing_image_uuid;
    disk_uuid = bi.lvs_uuid;
    size = bi.size;
    checksum = bi.expected_checksum;
  });
  status = some (record {
    progress = bi.progress;
    state = bi.state;
    checksum = bi.current_checksum;
    error_msg = bi.error_msg;
  });
}

unfoldable pub backing_image_responses :
    List (Text × SpdkBackingImage) → List (Text × Option BackingImageResponse)
unfolding spdk_backing_image_to_backing_image_response
backing_image_responses [] = []
backing_image_responses ((name, bi) ∷ rest) =
    (name, some (spdk_backing_image_to_backing_image_response bi)) ∷ backing_image_responses rest

module _ {W : Type 0} (S : SpdkBackingImages W) where
  unfoldable pub spdk_backing_image_create : CreateRequest → W → W × Result BackingImageResponse
  unfolding spdk_backing_image_to_backing_image_response
  spdk_backing_image_create q w = answer_with spdk_backing_image_to_backing_image_response (
      fail_as internal (
        SpdkBackingImages.create S q.name q.backing_image_uuid q.disk_uuid q.size q.checksum
          q.from_address q.src_lvs_uuid w))

  -- The error of the SPDK client is passed on as it is.
  unfoldable pub spdk_backing_image_delete : Text → Text → W → W × Result (Unit {0})
  spdk_backing_image_delete name disk_uuid w = SpdkBackingImages.delete S name disk_uuid w

  unfoldable pub spdk_backing_image_get : Text → Text → W → W × Result BackingImageResponse
  unfolding spdk_backing_image_to_backing_image_response
  spdk_backing_image_get name disk_uuid w =
      answer_with spdk_backing_image_to_backing_image_response
        (fail_as internal (SpdkBackingImages.get S name disk_uuid w))

  unfoldable pub spdk_backing_image_list :
      W → W × Result (List (Text × Option BackingImageResponse))
  unfolding backing_image_responses
  spdk_backing_image_list w =
      answer_with backing_image_responses (fail_as internal (SpdkBackingImages.list S w))

-- The loop of watchSPDKBackingImage is that of the watches on instances.
unfoldable pub watch_spdk_backing_image : List WatchEvent → ℕ × WatchEnd
unfolding watch
watch_spdk_backing_image events = watch 0 events
