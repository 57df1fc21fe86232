-- ===== src/Package/Names/Tests.antt =====
-- Concrete names.
use pishoo.Base.{◌≡◌, ◌↔◌, refl, true, false, chars, len, split, text_eq, starts_with}
use pishoo.Package.Names.{waz_path, dot_part, top_level, release_version, valid_name}
use pishoo.Package.Names.Laws.{IsArchivePath, waz_path-IsArchivePath_iff}

asset_path : waz_path (chars "public/index.html") ≡ true
unfolding waz_path dot_part top_level len split text_eq starts_with
asset_path = refl

refused_paths :
    (waz_path (chars "public/../x") ≡ false)
    × (waz_path (chars "x") ≡ false)
    × (release_version (chars "1.0.3") ≡ true)
    × (release_version (chars "1.03.0") ≡ false)
    × (valid_name (chars "lib-1") ≡ true)
    × (valid_name (chars "1lib") ≡ false)
unfolding waz_path dot_part top_level len split text_eq starts_with release_version valid_name
refused_paths = (refl, refl, refl, refl, refl, refl)

waz_path-IsArchivePath_iff_example :
    (waz_path (chars "public/index.html") ≡ true) ↔ IsArchivePath (chars "public/index.html")
waz_path-IsArchivePath_iff_example = waz_path-IsArchivePath_iff (chars "public/index.html")
