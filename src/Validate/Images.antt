-- ===== src/Validate/Images.antt =====
-- scripts/python/lib/validate_config_logic.py: the profiles of the operating systems. What the
-- functions of scripts/python/lib/genesis.py and the directory of the images give is an argument.
-- The names in the file of URLs, the profiles that point to others, and the directory's files with
-- their sizes.
use cluster_genesis.Base.{
  ℕ, Option, none, some, List, [], ◌∷◌, ◌++◌, map, ltb, if◌then◌else◌, nat_eq, ◌==◌, option_eq,
  Text, codes, text_eq, Result, ◌>>=◌, ok,
}
use cluster_genesis.Base.Value.{Value, port_eq, str}
use cluster_genesis.Config.Switches.Mlag.{in_values}
use cluster_genesis.Config.Templates.Settings.{yield_ntmpl_os_profile}
use cluster_genesis.Validate.Networks.{Message, no_image, place_of_images}

pub record Images : Type 0 where
  pub urls : List Text
  pub pointers : List Text
  pub files : List (Text × ℕ)

-- `t[:-4]` of a text that ends in ".iso".
unfoldable pub without_iso : Text → Option Text
without_iso [] = none
without_iso (c ∷ t) =
    let rest = without_iso t in
    if (c ∷ t) == codes ".iso" then some [] else elim rest [ none ↦ none | some s ↦ some (c ∷ s) ]

unfoldable pub of_file : Text × ℕ → List Text
unfolding without_iso
of_file (os_image_dir_file, st_size) =
    if ltb 0 st_size
    then os_image_dir_file ∷ elim (without_iso os_image_dir_file) [ none ↦ [] | some t ↦ t ∷ [] ]
    else []

unfoldable pub of_urls : List Text → List Text
of_urls [] = []
of_urls (url ∷ urls) = url ∷ (url ++ codes ".iso") ∷ of_urls urls

unfoldable pub of_files : List (Text × ℕ) → List Text
unfolding of_file
of_files [] = []
of_files (file ∷ files) = of_file file ++ of_files files

unfoldable pub valid_os_profiles : Images → List Value
unfolding of_urls of_files
valid_os_profiles images = map str (of_urls images.urls ++ images.pointers ++ of_files images.files)

unfoldable pub missing_images : List Value → List Value → List Message
unfolding in_values
missing_images valid [] = []
missing_images valid (os_profile ∷ profiles) =
    let rest = missing_images valid profiles in
    if in_values os_profile valid then rest else no_image os_profile ∷ rest

-- The note on the images comes behind the messages, if there is one.
unfoldable pub with_note : List Message → List Message
with_note [] = []
with_note (m ∷ ms) = (m ∷ ms) ++ place_of_images ∷ []

unfoldable pub validate_os_profiles : Images → Value → Result (List Message)
unfolding yield_ntmpl_os_profile valid_os_profiles missing_images with_note
validate_os_profiles images cfg = do
  profiles ← yield_ntmpl_os_profile cfg
  ok (with_note (missing_images (valid_os_profiles images) profiles))
