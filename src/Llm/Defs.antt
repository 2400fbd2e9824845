-- ===== src/Llm/Defs.antt =====
-- internal/llm/client.go. The LangChain client of the provider is a parameter, with a state of its own.
use golang_staterpack.Prelude.{
  ℤ, String, List, [], ◌∷◌, Result, ok, err, Call, ◌>>=◌, pure, fail, map_err, if◌then◌else◌,
  str_eq,
}
use Prim.Native.String.{◌++◌}
use golang_staterpack.Errors.{Error, Fault, sentinel, llm_disabled, external, wrap, from_fault}
use golang_staterpack.Strings.Trim.{trim_space, trim_slashes}
use golang_staterpack.Config.Defs.{LlmConfig}

-- `Client`.
pub record Client (L : Type 0) : Type 0 where
  pub complete : String → Call L Error String
  pub summarize : String → Call L Error String
  pub model : String

-- `openai.New` with a token, a model and a base URL, which gives an `M`, and `GenerateContent` of one
-- human message with a temperature and a limit of tokens: the contents of the choices.
pub record Openai (F M L : Type 0) : Type 0 where
  pub new : String → String → String → Result Fault M
  pub generate : M → String → F → ℤ → Call L Fault (List String)

-- The struct `client`.
pub record OpenaiClient (F M : Type 0) : Type 0 where
  pub llm : M
  pub model : String
  pub temperature : F
  pub max_tokens : ℤ

-- `fmt.Sprintf(summarizerPrompt, text)`.
abbrev pub summarizer_prompt : String → String
summarizer_prompt text =
    "You are a concise technical summarizer.\nSummarize the user's text in at most three sentences.\n"
    ++ ("Preserve technical specifics (identifiers, numbers, names).\n"
        ++ ("Respond with the summary only - no preamble, no markdown fences.\n\nText:\n" ++ text))

-- The client of `Disabled`.
unfoldable pub disabled : {L : Type 0} → String → Client L
disabled model = record {
  complete = λ prompt. fail (sentinel llm_disabled);
  summarize = λ text. pure text;
  model = model;
}

module _ {F M L : Type 0} (openai : Openai F M L) where
  unfoldable pub new : LlmConfig F → Result Error (OpenaiClient F M)
  unfolding trim_slashes
  new cfg =
      if str_eq cfg.api_key ""
      then err (external "llm: API key is empty")
      else elim (openai.new cfg.api_key cfg.model (trim_slashes cfg.base_url)) [
        | err e ↦ err (wrap ("llm: init " ++ (cfg.provider ++ " client")) (from_fault e))
        | ok model ↦ ok record {
          llm = model;
          model = cfg.model;
          temperature = cfg.temperature;
          max_tokens = cfg.max_tokens;
        }
      ]

  module _ (c : OpenaiClient F M) where
    abbrev first_choice : List String → Call L Error String
    first_choice [] = fail (external ("llm: empty response from " ++ c.model))
    first_choice (content ∷ _) = pure (trim_space content)

    unfoldable pub complete : String → Call L Error String
    complete prompt = do
      choices ←
          map_err (λ e. wrap "llm: generate" (from_fault e))
            (openai.generate c.llm prompt c.temperature c.max_tokens)
      first_choice choices

    unfoldable pub summarize : String → Call L Error String
    summarize text =
        if str_eq (trim_space text) "" then pure "" else complete (summarizer_prompt text)

    abbrev pub client : Client L
    client = record { complete = complete; summarize = summarize; model = c.model }
