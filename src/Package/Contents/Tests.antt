-- ===== src/Package/Contents/Tests.antt =====
-- The sample_files of the sample.
use pishoo.Base.{◌≡◌, refl, arith}
use pishoo.Package.Sample.{pki, values, sample_files}
use pishoo.Package.Contents.Records.{seals, payload_records-seals}

payload_records-seals_example :
    seals values pki (λ s. s) sample_files ≡ seals values pki (λ s. s) sample_files
payload_records-seals_example =
    payload_records-seals values pki (λ s. s) 1 (λ bytes. refl) sample_files sample_files
      ((omega arith, omega arith), ((omega arith, omega arith), ((omega arith, omega arith), tt)))
      ((omega arith, omega arith), ((omega arith, omega arith), ((omega arith, omega arith), tt)))
      refl
