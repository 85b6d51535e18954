-- ===== src/Tech/Texts.antt =====
-- Rust's `str` operations that src/tech.rs uses besides those of Prelude.
use Prim.Native.Char.{code}
use hub_kubernetes_agent.Prelude.{
  ℕ, String, Option, none, some, Bool, any, nat_eq, codes, ◌==◌, if◌then◌else◌, is_some, and_then,
  strip_prefix, split_once, rsplit_once,
}

-- `str::contains` of a character.
abbrev pub contains_char : ℕ → String → Bool
contains_char k s = any (λ c. nat_eq c k) (codes s)

-- `str::contains` of a text that is not empty; the text comes second.
unfoldable pub contains_text : String → String → Bool
unfolding split_once
contains_text s part = is_some (split_once s part)

-- `str::starts_with`; the prefix comes second.
unfoldable pub starts_with : String → String → Bool
unfolding strip_prefix
starts_with s start = is_some (strip_prefix s start)

-- `str::strip_suffix`; the suffix comes second.
unfoldable pub strip_suffix : String → String → Option String
strip_suffix String.[] suffix = if "" == suffix then some "" else none
strip_suffix (String.◌∷◌ c s) suffix =
    let rest = strip_suffix s suffix in
    if String.◌∷◌ c s == suffix then some "" else and_then rest (λ r. some (String.◌∷◌ c r))

-- `str::ends_with`; the suffix comes second.
unfoldable pub ends_with : String → String → Bool
unfolding strip_suffix
ends_with s suffix = is_some (strip_suffix s suffix)

-- `trim_start_matches` of a character.
unfoldable pub trim_start_char : ℕ → String → String
trim_start_char k String.[] = ""
trim_start_char k (String.◌∷◌ c s) =
    let rest = trim_start_char k s in if nat_eq (code c) k then rest else String.◌∷◌ c s

-- `rsplit('/').next()`: what follows the last "/", or the whole text.
unfoldable pub last_segment : String → String
unfolding rsplit_once
last_segment s = elim (rsplit_once s "/") [ some (before, after) ↦ after | none ↦ s ]
