-- ===== src/BackingImage/Passing.antt =====
-- What a client of the proxy service, pkg/client/proxy_backing_image.go, sees of the backing images
-- of the SPDK engine behind pkg/proxy/backing_image.go.
use longhorn_engine_launcher.Prelude.{◌≡◌, refl, false, ◌==◌, Option, some, List, [], ◌∷◌}
use longhorn_engine_launcher.Prelude.Text.{Text}
use longhorn_engine_launcher.Rpc.{
  internal, Failure, status, wrapped, Result, value, failure, panics, answer_with, fail_as,
  fail_wrapped,
}
use longhorn_engine_launcher.Stack.{carried}
use longhorn_engine_launcher.ProxyClient.{any_empty}
use longhorn_engine_launcher.BackingImage.{
  SpdkBackingImage, CreateRequest, SpdkBackingImages, spdk_backing_image_to_backing_image_response,
  backing_image_responses, spdk_backing_image_create, spdk_backing_image_delete,
  spdk_backing_image_get, spdk_backing_image_list,
}
use longhorn_engine_launcher.BackingImage.Client.{
  BackingImage, BackingImageService, rpc_to_backing_image, rpc_to_backing_image_list, image_from,
  entry_before, convert_with, required, client_backing_image_create, client_backing_image_delete,
  client_backing_image_get, client_backing_image_list,
}

-- An image of the SPDK engine as the API has it: the store is the disk.
abbrev pub image_of : SpdkBackingImage → BackingImage
image_of bi = record {
  name = bi.name;
  backing_image_uuid = bi.backing_image_uuid;
  disk_uuid = bi.lvs_uuid;
  size = bi.size;
  expected_checksum = bi.expected_checksum;
  progress = bi.progress;
  state = bi.state;
  current_checksum = bi.current_checksum;
  error_msg = bi.error_msg;
}

abbrev pub images_of : List (Text × SpdkBackingImage) → List (Text × Option BackingImage)
images_of [] = []
images_of ((name, bi) ∷ rest) = (name, some (image_of bi)) ∷ images_of rest

-- An answer of the engine as the client sees it, its error through `seen`.
abbrev pub sees : {W A C : Type 0} → (A → C) → (Failure → Failure) → W × Result A → W × Result C
sees f seen (w, value a) = (w, value (f a))
sees f seen (w, failure e) = (w, failure (seen e))
sees f seen (w, panics) = (w, panics)

rpc_to_backing_image_lem :
    (bi : SpdkBackingImage)
    → rpc_to_backing_image (some (spdk_backing_image_to_backing_image_response bi))
      ≡ value (image_of bi)
unfolding rpc_to_backing_image image_from spdk_backing_image_to_backing_image_response
rpc_to_backing_image_lem bi = refl

rpc_to_backing_image_list_lem :
    (l : List (Text × SpdkBackingImage))
    → rpc_to_backing_image_list (backing_image_responses l) ≡ value (images_of l)
unfolding rpc_to_backing_image_list backing_image_responses entry_before
rpc_to_backing_image_list_lem [] = refl
rpc_to_backing_image_list_lem ((name, bi) ∷ rest) =
    rw (rpc_to_backing_image_lem bi, rpc_to_backing_image_list_lem rest) refl

module _ {W : Type 0} (S : SpdkBackingImages W) (carry : Failure → Failure) where
  -- The service of a proxy; gRPC carries its errors.
  abbrev pub image_service : BackingImageService W
  image_service = record {
    create = λ q w. carried carry (spdk_backing_image_create S q w);
    delete = λ name disk_uuid w. carried carry (spdk_backing_image_delete S name disk_uuid w);
    get = λ name disk_uuid w. carried carry (spdk_backing_image_get S name disk_uuid w);
    list = λ w. carried carry (spdk_backing_image_list S w);
  }

  -- An answer with an image goes through the service and the client's conversion.
  image_passes :
      (x : W × Result SpdkBackingImage)
      → convert_with
          (λ r. rpc_to_backing_image (some r))
          (carried carry
            (answer_with spdk_backing_image_to_backing_image_response (fail_as internal x)))
        ≡ sees image_of (λ e. carry (status internal)) x
  image_passes (w, value bi) = rw (rpc_to_backing_image_lem bi) refl
  image_passes (w, failure e) = refl
  image_passes (w, panics) = refl

  list_passes :
      (x : W × Result (List (Text × SpdkBackingImage)))
      → convert_with rpc_to_backing_image_list
          (fail_wrapped (carried carry (answer_with backing_image_responses (fail_as internal x))))
        ≡ sees images_of (λ e. wrapped (carry (status internal))) x
  list_passes (w, value l) = rw (rpc_to_backing_image_list_lem l) refl
  list_passes (w, failure e) = refl
  list_passes (w, panics) = refl

  delete_passes : (x : W × Result (Unit {0})) → carried carry x ≡ sees (λ t. t) carry x
  delete_passes (w, value a) = refl
  delete_passes (w, failure e) = refl
  delete_passes (w, panics) = refl

  -- With the arguments that the client asks for, creating, getting, listing and deleting backing
  -- images through the proxy service is the call of the SPDK engine with the same arguments: each
  -- image that it answers arrives in the API's form, with its store as the disk, and its state is
  -- the engine's. The error of a delete arrives as gRPC carries it, that of the others as a status
  -- Internal.
  pub image_calls-Passes :
      (q : CreateRequest) (name disk_uuid : Text) (w : W)
      → any_empty (q.name ∷ q.backing_image_uuid ∷ q.checksum ∷ q.disk_uuid ∷ []) ≡ false
      → (q.size == 0) ≡ false
      → any_empty (name ∷ disk_uuid ∷ []) ≡ false
      → (client_backing_image_create image_service q w
          ≡ sees image_of
              (λ e. carry (status internal))
              (SpdkBackingImages.create S q.name q.backing_image_uuid q.disk_uuid q.size q.checksum
                q.from_address q.src_lvs_uuid w))
        × (client_backing_image_get image_service name disk_uuid w
            ≡ sees image_of
                (λ e. carry (status internal))
                (SpdkBackingImages.get S name disk_uuid w))
        × (client_backing_image_list image_service w
            ≡ sees images_of (λ e. wrapped (carry (status internal))) (SpdkBackingImages.list S w))
        × (client_backing_image_delete image_service name disk_uuid w
            ≡ sees (λ t. t) carry (SpdkBackingImages.delete S name disk_uuid w))
  unfolding client_backing_image_create client_backing_image_get client_backing_image_list
      client_backing_image_delete required spdk_backing_image_create spdk_backing_image_get
      spdk_backing_image_list spdk_backing_image_delete
  image_calls-Passes q name disk_uuid w h sized g = (
    rw (h, sized)
        (image_passes (
          SpdkBackingImages.create S q.name q.backing_image_uuid q.disk_uuid q.size q.checksum
            q.from_address q.src_lvs_uuid w)),
    rw g (image_passes (SpdkBackingImages.get S name disk_uuid w)),
    list_passes (SpdkBackingImages.list S w),
    rw g (delete_passes (SpdkBackingImages.delete S name disk_uuid w)),
  )
