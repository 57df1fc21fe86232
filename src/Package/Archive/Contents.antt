-- ===== src/Package/Archive/Contents.antt =====
-- What the files of an accepted archive look like.
use pishoo.Base.{ℕ, ◌+◌, ◌≤◌, ◌≡◌, true, [], ◌∷◌, Text, chars, length, All, ◌≢◌, In}
use pishoo.Package.Names.{waz_path}
use pishoo.Package.Archive.Checks.{Bytes, Archive, waz_limit}
use pishoo.Package.Archive.{Progress, Files, parents}

-- The bytes of all files.
unfoldable pub total : Files → ℕ
total [] = 0
total (f ∷ fs) = length f.1 + total fs

-- No file has the name.
abbrev pub Lacks : Files → Text → Type 0
Lacks files name = All (λ f. f.0 ≢ name) files

-- No name occurs twice.
abbrev pub HasDistinctNames : Files → Type 0
HasDistinctNames [] = Unit
HasDistinctNames (f ∷ fs) = Lacks fs f.0 × HasDistinctNames fs

abbrev pub HasPath : Text × Bytes → Type 0
HasPath f = waz_path f.0 ≡ true

-- No directory above the file is itself a file.
abbrev pub HasFreeParents : Files → Text × Bytes → Type 0
HasFreeParents files f = All (Lacks files) (parents f.0)

pub record IsSound (files : Files) : Type 0 where
  pub bounded : total files ≤ waz_limit
  pub paths : All HasPath files
  pub distinct : HasDistinctNames files
  pub free : All (HasFreeParents files) files
  pub manifest : (content : Bytes) × In (chars "manifest.json", content) files

record IsGood (p : Progress) : Type 0 where
  budget : total p.files + p.remaining ≡ waz_limit
  paths : All HasPath p.files
  distinct : HasDistinctNames p.files
