-- ===== src/Prelude/Commas.antt =====
-- `str::split(',')`
use Prim.Native.Char.{code}
use hub_kubernetes_agent.Prelude.{String, List, [], ◌∷◌, nat_eq, if◌then◌else◌}

-- A character in front of the first part.
abbrev extend : List String → Prim.Native.Char.Char → List String
extend [] c = String.◌∷◌ c String.[] ∷ []
extend (part ∷ rest) c = String.◌∷◌ c part ∷ rest

-- The parts between the commas; a text with none is one part.
unfoldable pub split_commas : String → List String
split_commas String.[] = "" ∷ []
split_commas (String.◌∷◌ c s) =
    let parts = split_commas s in if nat_eq (code c) b',' then "" ∷ parts else extend parts c
