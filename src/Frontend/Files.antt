-- ===== src/Frontend/Files.antt =====
-- src/sandbox.rs, `app_response`: the files that a request can reach.
use pishoo.Base.{false, Text, ◌≡◌, split, is_control, All}
use pishoo.Package.Names.{dot_part}
use pishoo.Frontend.{escape_char}

-- A relative path without parts `.` and `..`, escapes and control characters.
abbrev pub IsSafe : Text → Type 0
IsSafe suffix =
    All (λ c. escape_char c ≡ false) suffix
    × All (λ w. dot_part w ≡ false) (split b'/' suffix)
    × All (λ c. is_control c ≡ false) suffix
