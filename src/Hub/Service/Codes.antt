-- ===== src/Hub/Service/Codes.antt =====
-- The code of a new site: `slugify_site_code` and `generate_unique_site_code` of service.rs, whose
-- loop tries suffixes until a code is free. Its `u32` counter wraps around as in a release build.
pub mod Free
use Prim.Native.Char.{Char, code}
use Prim.Native.String.{[], ◌∷◌, ◌++◌}
use pingora_mesh.Base.{
  ℕ, zero, suc, ◌+◌, ◌%◌, String, Bool, true, false, not, ◌||◌, ◌&&◌, Option, none, some, leb,
  nat_beq, ◌==◌, string_eq, if◌then◌else◌,
}
use pingora_mesh.Base.Text.{
  ◌<>◌, trim, trim_start_matches, trim_end_matches, translate, upper_letters, lower_letters,
  decimal,
}
use pingora_mesh.Json.{unwrap_or, filter_some}
use pingora_mesh.SiteConfig.{map_some, or_else}
use pingora_mesh.Domain.{Uuid}
use pingora_mesh.Hub.Memory.{MemoryState}
use pingora_mesh.Hub.Memory.Sites.{site_id_by_code}

abbrev pub is_between : ℕ → ℕ → ℕ → Bool
is_between low high c = leb low c && leb c high

abbrev pub is_dash : ℕ → Bool
is_dash c = nat_beq c 0x2d

-- A letter in lower case or a digit stays, `-`, `_`, `.` and a blank are dashes, all else goes.
unfoldable pub slug_char : Char → Option Char
slug_char c =
    if is_between 0x61 0x7a (code c) || is_between 0x30 0x39 (code c)
    then some c
    else if is_between 0x41 0x5a (code c)
    then some (translate upper_letters lower_letters c)
    else if is_dash (code c)
        || nat_beq (code c) 0x5f
        || nat_beq (code c) 0x2e
        || nat_beq (code c) 0x20
    then some "-"
    else none

-- The loop, from whether the last character was a dash or there is none yet: both make it pass over
-- a dash.
unfoldable pub slugify_from : Bool → String → String
slugify_from skips [] = []
slugify_from skips (c ∷ s) = elim (slug_char c) [
  | none ↦ slugify_from skips s
  | some d ↦ elim (is_dash (code d)) [
    | true ↦ elim skips [ true ↦ slugify_from true s | false ↦ d ∷ slugify_from true s ]
    | false ↦ d ∷ slugify_from false s
  ]
]

unfoldable pub slugify_site_code : String → String
slugify_site_code raw =
    trim_end_matches is_dash (trim_start_matches is_dash (slugify_from true raw))

-- `domain.split('.').next()`
unfoldable pub first_label : String → String
first_label [] = []
first_label (c ∷ s) = if nat_beq (code c) 0x2e then [] else c ∷ first_label s

abbrev pub non_empty : Option String → Option String
non_empty text = filter_some (λ value. not (value == "")) text

-- The code that is tried first; `fresh` is `site-` with a new `Uuid`.
unfoldable pub base_code : (fresh : String) → Option String → (name domain : String) → String
base_code fresh preferred name domain =
    unwrap_or
      (or_else (non_empty (map_some slugify_site_code (non_empty (map_some trim preferred)))) (
        or_else (non_empty (some (slugify_site_code (first_label domain))))
          (non_empty (some (slugify_site_code name)))))
      fresh

abbrev pub u32_values : ℕ
u32_values = 4294967296

-- The n-th candidate.
unfoldable pub candidate : String → ℕ → String
candidate base zero = base
candidate base (suc n) = base <> "-" <> decimal ((n + 2) % u32_values)

abbrev pub is_taken : MemoryState → String → Bool
is_taken state site_code = elim (site_id_by_code site_code state) [ none ↦ false | some id ↦ true ]

-- The loop, from the n-th candidate.
unfoldable pub free_code_from : (fuel : ℕ) → MemoryState → String → ℕ → Option String
free_code_from zero state base n = none
free_code_from (suc fuel) state base n =
    let rest = free_code_from fuel state base (suc n) in
    if is_taken state (candidate base n) then rest else some (candidate base n)

unfoldable pub generate_unique_site_code :
    (fuel : ℕ)
    → MemoryState
    → (fresh : String) → Option String
    → (name domain : String) → Option String
generate_unique_site_code fuel state fresh preferred name domain =
    free_code_from fuel state (base_code fresh preferred name domain) 0
