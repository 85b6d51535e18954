-- ===== src/Agent/Mode.antt =====
-- main.rs: the command line; config.rs: the runtime modes.
use hub_kubernetes_agent.Prelude.{
  ◌≡◌, refl, ◌∙◌, String, none, some, List, [], ◌∷◌, ◌++◌, ◌==◌, if◌then◌else◌, ◌<>◌, strip_prefix,
  Result, ok, err,
}

pub data RuntimeMode : Type 0 where
  agent operator : RuntimeMode

-- `RuntimeMode::as_str`
abbrev pub as_str : RuntimeMode → String
as_str agent = "agent"
as_str operator = "operator"

-- `RuntimeMode::parse`
unfoldable pub parse_mode : String → Result String RuntimeMode
parse_mode value =
    if value == "agent"
    then ok agent
    else if value == "operator"
    then ok operator
    else err ("invalid runtime mode: " <> value)

-- The loop, with the mode so far.
unfoldable pub parse_args : List String → RuntimeMode → Result String RuntimeMode
parse_args [] mode = ok mode
parse_args (arg ∷ []) mode =
    if arg == "--mode"
    then err "--mode requires a value: agent or operator"
    else elim (strip_prefix arg "--mode=") [
      | some value ↦ parse_mode value
      | none ↦ err ("unknown argument: " <> arg)
    ]
parse_args (arg ∷ next ∷ rest) mode =
    let after_next = λ (m : RuntimeMode). parse_args rest m in
    let after = λ (m : RuntimeMode). parse_args (next ∷ rest) m in
    if arg == "--mode"
    then elim (parse_mode next) [ ok m ↦ after_next m | err e ↦ err e ]
    else elim (strip_prefix arg "--mode=") [
      | some value ↦ elim (parse_mode value) [ ok m ↦ after m | err e ↦ err e ]
      | none ↦ err ("unknown argument: " <> arg)
    ]

unfoldable pub parse_runtime_mode : List String → Result String RuntimeMode
unfolding parse_args
parse_runtime_mode args = parse_args args agent

-- The two ways to name a mode.
pub data Setting : Type 0 where
  separate joined : RuntimeMode → Setting

abbrev pub written : Setting → List String
written (separate mode) = "--mode" ∷ as_str mode ∷ []
written (joined mode) = ("--mode=" <> as_str mode) ∷ []

abbrev pub all_written : List Setting → List String
all_written [] = []
all_written (setting ∷ rest) = written setting ++ all_written rest

abbrev pub mode_of : Setting → RuntimeMode
mode_of (separate mode) = mode
mode_of (joined mode) = mode

abbrev pub last_mode : RuntimeMode → List Setting → RuntimeMode
last_mode mode [] = mode
last_mode mode (setting ∷ rest) = last_mode (mode_of setting) rest

parse_separate :
    (mode before : RuntimeMode) (args : List String)
    → parse_args ("--mode" ∷ as_str mode ∷ args) before ≡ parse_args args mode
unfolding parse_args parse_mode
parse_separate agent before args = refl
parse_separate operator before args = refl

parse_joined :
    (mode before : RuntimeMode) (args : List String)
    → parse_args (("--mode=" <> as_str mode) ∷ args) before ≡ parse_args args mode
unfolding parse_args parse_mode strip_prefix
parse_joined agent before [] = refl
parse_joined agent before (next ∷ rest) = refl
parse_joined operator before [] = refl
parse_joined operator before (next ∷ rest) = refl

parse_args-all_written :
    (settings : List Setting) (before : RuntimeMode)
    → parse_args (all_written settings) before ≡ ok (last_mode before settings)
unfolding parse_args
parse_args-all_written [] before = refl
parse_args-all_written (separate mode ∷ rest) before =
    parse_separate mode before (all_written rest) ∙ parse_args-all_written rest mode
parse_args-all_written (joined mode ∷ rest) before =
    parse_joined mode before (all_written rest) ∙ parse_args-all_written rest mode

-- A command line that is written from any settings of the mode, in either form, parses, and to the
-- mode of the last one; to the agent mode where there is none.
pub parse_runtime_mode-all_written :
    (settings : List Setting)
    → parse_runtime_mode (all_written settings) ≡ ok (last_mode agent settings)
unfolding parse_runtime_mode
parse_runtime_mode-all_written settings = parse_args-all_written settings agent
