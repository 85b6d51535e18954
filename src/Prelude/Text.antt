-- ===== src/Prelude/Text.antt =====
-- Rust's `str` operations that the program uses and the libraries lack.
use Prim.Native.Nat.{ℕ, ◌+◌}
use Prim.Native.Char.{code}
use Prim.Native.String
use Prim.Native.String.{String}
use mathlib.Core.Bool.{Bool, true, false, ◌&&◌, ◌||◌}
use mathlib.Core.Option.{Option, none, some}
use mathlib.Core.List.{List, [], ◌∷◌}
use text.Mathlib.Text.{◌==◌}
use hub_kubernetes_agent.Prelude.Tests.{leb, nat_eq, if◌then◌else◌, and_then}

-- `char::is_whitespace`
abbrev pub is_whitespace : ℕ → Bool
is_whitespace c =
    leb 9 c && leb c 13
    || nat_eq c 32
    || nat_eq c 0x85
    || nat_eq c 0xa0
    || nat_eq c 0x1680
    || leb 0x2000 c && leb c 0x200a
    || nat_eq c 0x2028
    || nat_eq c 0x2029
    || nat_eq c 0x202f
    || nat_eq c 0x205f
    || nat_eq c 0x3000

trim_start : String → String
trim_start String.[] = ""
trim_start (String.◌∷◌ c s) =
    let rest = trim_start s in if is_whitespace (code c) then rest else String.◌∷◌ c s

trim_end : String → String
trim_end String.[] = ""
trim_end (String.◌∷◌ c s) =
    let rest = trim_end s in
    if (rest == "") && is_whitespace (code c) then "" else String.◌∷◌ c rest

-- `str::trim`
unfoldable pub trim : String → String
unfolding trim_start trim_end
trim s = trim_end (trim_start s)

-- `str::strip_suffix` for a single character.
unfoldable pub strip_suffix_char : ℕ → String → Option String
strip_suffix_char k String.[] = none
strip_suffix_char k (String.◌∷◌ c String.[]) = if nat_eq (code c) k then some "" else none
strip_suffix_char k (String.◌∷◌ c (String.◌∷◌ d s)) =
    and_then (strip_suffix_char k (String.◌∷◌ d s)) (λ r. some (String.◌∷◌ c r))

-- The code points of a text.
abbrev pub codes : String → List ℕ
codes String.[] = []
codes (String.◌∷◌ c s) = code c ∷ codes s

abbrev to_ascii_lowercase : ℕ → ℕ
to_ascii_lowercase c = if leb b'A' c && leb c b'Z' then c + 32 else c

abbrev codes_eq_ignore_ascii_case : List ℕ → List ℕ → Bool
codes_eq_ignore_ascii_case [] [] = true
codes_eq_ignore_ascii_case [] (_ ∷ _) = false
codes_eq_ignore_ascii_case (_ ∷ _) [] = false
codes_eq_ignore_ascii_case (a ∷ xs) (b ∷ ys) =
    nat_eq (to_ascii_lowercase a) (to_ascii_lowercase b) && codes_eq_ignore_ascii_case xs ys

-- `str::eq_ignore_ascii_case`
unfoldable pub eq_ignore_ascii_case : String → String → Bool
eq_ignore_ascii_case s t = codes_eq_ignore_ascii_case (codes s) (codes t)

-- `str::strip_prefix`; the prefix comes second.
unfoldable pub strip_prefix : String → String → Option String
strip_prefix s String.[] = some s
strip_prefix String.[] (String.◌∷◌ d p) = none
strip_prefix (String.◌∷◌ c s) (String.◌∷◌ d p) =
    let rest = strip_prefix s p in if nat_eq (code c) (code d) then rest else none

-- `str::split_once`: around the first occurrence of a separator that is not empty.
unfoldable pub split_once : String → String → Option (String × String)
unfolding strip_prefix
split_once String.[] sep = none
split_once (String.◌∷◌ c s) sep =
    let later = split_once s sep in
    elim (strip_prefix (String.◌∷◌ c s) sep) [
      | some after ↦ some ("", after)
      | none ↦ and_then later (λ parts. some (String.◌∷◌ c parts.0, parts.1))
    ]

-- `str::rsplit_once`: around the last one.
unfoldable pub rsplit_once : String → String → Option (String × String)
unfolding strip_prefix
rsplit_once String.[] sep = none
rsplit_once (String.◌∷◌ c s) sep =
    let here = strip_prefix (String.◌∷◌ c s) sep in
    elim (rsplit_once s sep) [
      | some (before, after) ↦ some (String.◌∷◌ c before, after)
      | none ↦ and_then here (λ after. some ("", after))
    ]

-- `str::len`, which counts bytes.
abbrev pub byte_length : String → ℕ
byte_length s = String.len s

-- `char::is_ascii_hexdigit`
abbrev pub is_ascii_hexdigit : ℕ → Bool
is_ascii_hexdigit c =
    leb b'0' c && leb c b'9' || leb b'a' c && leb c b'f' || leb b'A' c && leb c b'F'
