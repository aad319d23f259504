-- ===== src/DevEnvironments/Images.antt =====
-- lib/devenvironments/images.ts: the published images and the accounts that they run as.
use cubestack.Prelude.{
  without_end_slashes, Bool, ℕ, Text, codes, text_eq, trim, is_truthy, get_or, List, [], ◌∷◌, ◌++◌,
  Option, none, some, if◌then◌else◌,
}

pub data ImageInterface : Type 0 where
  jupyter ssh : ImageInterface

pub data DevImageVendor : Type 0 where
  cpu nvidia metax : DevImageVendor

pub record DevImage : Type 0 where
  pub tag : Text
  pub label : Text
  pub user : Text
  pub run_as_group : Option ℕ
  pub interface : ImageInterface
  pub vendor : DevImageVendor

-- `REGISTRY`, of the variable CUBESTACK_DEV_IMAGE_REGISTRY
unfoldable pub registry : Option Text → Text
unfolding without_end_slashes trim
registry variable =
    let host = without_end_slashes (trim (get_or variable [])) in
    if is_truthy host then host else codes "harbor.isuanova.com"

abbrev pub image_of : Text → Text → Text → ImageInterface → DevImageVendor → DevImage
image_of host image label interface vendor = record {
  tag = host ++ (codes "/suanova/" ++ (image ++ codes ":latest"));
  label = label;
  user = codes "ubuntu";
  run_as_group = none;
  interface = interface;
  vendor = vendor;
}

unfoldable pub dev_images : Text → List DevImage
dev_images host =
    image_of host (codes "cpu-pytorch") (codes "suanova/cpu-pytorch · CPU · JupyterLab (ubuntu)")
      ImageInterface.jupyter DevImageVendor.cpu
    ∷ image_of host (codes "cpu-pytorch") (codes "suanova/cpu-pytorch · CPU · SSH (ubuntu)")
        ImageInterface.ssh DevImageVendor.cpu
    ∷ image_of host (codes "cuda-pytorch")
        (codes "suanova/cuda-pytorch · NVIDIA CUDA · JupyterLab (ubuntu)") ImageInterface.jupyter
        DevImageVendor.nvidia
    ∷ image_of host (codes "cuda-pytorch")
        (codes "suanova/cuda-pytorch · NVIDIA CUDA · SSH (ubuntu)") ImageInterface.ssh
        DevImageVendor.nvidia
    ∷ image_of host (codes "maca-pytorch")
        (codes "suanova/maca-pytorch · Metax MACA · JupyterLab (ubuntu)") ImageInterface.jupyter
        DevImageVendor.metax
    ∷ image_of host (codes "maca-pytorch")
        (codes "suanova/maca-pytorch · Metax MACA · SSH (ubuntu)") ImageInterface.ssh
        DevImageVendor.metax
    ∷ []

abbrev pub find {ℓ} : {A : Type ℓ} → (A → Bool) → List A → Option A
find p [] = none
find p (x ∷ xs) = let rest = find p xs in if p x then some x else rest

unfoldable pub dev_image_for : Text → Text → Option DevImage
unfolding dev_images text_eq
dev_image_for host tag = find (λ (image : DevImage). text_eq image.tag tag) (dev_images host)
