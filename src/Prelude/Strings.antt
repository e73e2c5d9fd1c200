-- ===== src/Prelude/Strings.antt =====
-- The functions of Go's package strings that the program calls, on texts of unicode characters.
use Prim.Native.Char.{Char, code}
use Prim.Native.String.{String, len, slice}
use mathlib.Core.Bool.{Bool, ◌&&◌, ◌||◌}
use mathlib.Core.Option.{Option, none, some}
use text.Mathlib.Text.{◌==◌ as str_eq, starts_with}
use incus_compose.Prelude.Tests.{if◌then◌else◌, leb, ◌==◌}

-- `unicode.IsSpace`.
abbrev pub is_space : Char → Bool
is_space c =
    let n = code c in
    (leb 9 n && leb n 13)
    || (n == 32)
    || (n == 133)
    || (n == 160)
    || (n == 5760)
    || (leb 8192 n && leb n 8202)
    || (n == 8232)
    || (n == 8233)
    || (n == 8239)
    || (n == 8287)
    || (n == 12288)

abbrev pub trim_left : String → String
trim_left String.[] = String.[]
trim_left (String.◌∷◌ c s) = let rest = trim_left s in if is_space c then rest else String.◌∷◌ c s

abbrev pub trim_right : String → String
trim_right String.[] = String.[]
trim_right (String.◌∷◌ c s) =
    let rest = trim_right s in if is_space c && str_eq rest "" then String.[] else String.◌∷◌ c rest

-- `strings.TrimSpace`.
abbrev pub trim_space : String → String
trim_space s = trim_left (trim_right s)

-- `strings.HasPrefix`.
abbrev pub has_prefix : String → String → Bool
has_prefix s prefix = starts_with s prefix

-- `strings.TrimPrefix`.
abbrev pub trim_prefix : String → String → String
trim_prefix s prefix = if starts_with s prefix then slice s (len prefix) (len s) else s

abbrev widen : Char → Option (String × String) → Option (String × String)
widen c none = none
widen c (some (before, after)) = some (String.◌∷◌ c before, after)

-- `strings.Cut`, at a separator that is not empty.
abbrev pub cut : String → String → Option (String × String)
cut sep String.[] = none
cut sep (String.◌∷◌ c s) =
    let deeper = cut sep s in
    if starts_with (String.◌∷◌ c s) sep
    then some ("", slice (String.◌∷◌ c s) (len sep) (len (String.◌∷◌ c s)))
    else widen c deeper
