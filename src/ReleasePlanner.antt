-- ===== src/ReleasePlanner.antt =====
-- `ReleasePlanner::build_release_version` of crates/application. How `chrono` writes a time by
-- `%Y%m%d%H%M%S` is a parameter.
use pingora_mesh.Base.{ℕ, String, ltb, if◌then◌else◌}
use pingora_mesh.Base.Text.{◌<>◌, decimal}
use pingora_mesh.Domain.{DateTime}

-- `{serial:03}`
unfoldable pub padded : ℕ → String
padded serial =
    if ltb serial 10
    then "00" <> decimal serial
    else if ltb serial 100
    then "0" <> decimal serial
    else decimal serial

unfoldable pub build_release_version : (DateTime → String) → String → DateTime → ℕ → String
build_release_version timestamp scope issued_at serial =
    "rel-" <> scope <> "-" <> timestamp issued_at <> "-" <> padded serial
