-- ===== src/Examples/Images.antt =====
-- Calls on backing images, from pkg/client/proxy_backing_image.go to the SPDK engine.
use longhorn_engine_launcher.Prelude.{ℕ, suc, ◌≡◌, refl, some, [], ◌∷◌}
use longhorn_engine_launcher.Prelude.Int.{pos}
use longhorn_engine_launcher.Prelude.Text.{codes}
use longhorn_engine_launcher.Rpc.{value, failure}
use longhorn_engine_launcher.Client.{missing}
use longhorn_engine_launcher.ProxyClient.{any_empty}
use longhorn_engine_launcher.BackingImage.{SpdkBackingImage, CreateRequest, SpdkBackingImages}
use longhorn_engine_launcher.BackingImage.Client.{
  client_backing_image_create, client_backing_image_delete, client_backing_image_get,
  client_backing_image_list,
}
use longhorn_engine_launcher.BackingImage.Passing.{image_of, image_service, image_calls-Passes}

abbrev image : SpdkBackingImage
image = record {
  name = codes "bi";
  backing_image_uuid = codes "u";
  lvs_uuid = codes "disk";
  size = 4096;
  expected_checksum = codes "sum";
  progress = pos 100;
  state = codes "ready";
  current_checksum = codes "sum";
  error_msg = [];
}

-- An engine that counts its calls, has one image, and deletes none.
abbrev engine_with_image : SpdkBackingImages ℕ
engine_with_image = record {
  create = λ name uuid lvs size sum address lvs_from n. (suc n, value image);
  delete = λ name lvs n. (suc n, failure missing);
  get = λ name lvs n. (suc n, value image);
  list = λ n. (suc n, value ((codes "bi", image) ∷ []));
}

abbrev create_image : CreateRequest
create_image = record {
  name = codes "bi";
  backing_image_uuid = codes "u";
  disk_uuid = codes "disk";
  size = 4096;
  checksum = codes "sum";
  from_address = codes "a";
  src_lvs_uuid = [];
}

image_calls-Passes_example :
    let s = image_service engine_with_image (λ e. e) in
    (client_backing_image_create s create_image 0 ≡ (1, value (image_of image)))
    × (client_backing_image_get s (codes "bi") (codes "disk") 0 ≡ (1, value (image_of image)))
    × (client_backing_image_list s 0 ≡ (1, value ((codes "bi", some (image_of image)) ∷ [])))
    × (client_backing_image_delete s (codes "bi") (codes "disk") 0 ≡ (1, failure missing))
unfolding any_empty
image_calls-Passes_example =
    image_calls-Passes engine_with_image (λ e. e) create_image (codes "bi") (codes "disk") 0 refl
      refl refl
