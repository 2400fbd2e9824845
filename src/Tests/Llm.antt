-- ===== src/Tests/Llm.antt =====
-- Requests for summaries, over a provider that answers.
use golang_staterpack.Prelude.{ℕ, suc, pos, ◌≡◌, refl, String, [], ◌∷◌, ok}
use golang_staterpack.Strings.Trim.{trim_space, trim_slashes}
use golang_staterpack.Llm.Defs.{Openai, OpenaiClient, client, summarize, complete}
use golang_staterpack.Llm.Answers.{Ends, summarize_lem}

abbrev provider : Openai ℕ String ℕ
provider = record {
  new = λ token model url. ok url;
  generate = λ url prompt temperature limit n. (ok (" short\n" ∷ []), suc n);
}

abbrev chat : OpenaiClient ℕ String
chat = record { llm = "url"; model = "m"; temperature = 2; max_tokens = pos 10 }

answer_run : (client provider chat).summarize " some text" 0 ≡ (ok "short", 1)
unfolding summarize complete trim_space
answer_run = refl

blank_run : (client provider chat).summarize " \n\t" 0 ≡ (ok "", 0)
unfolding summarize trim_space
blank_run = refl

slashes_run : trim_slashes "https://api/v1//" ≡ "https://api/v1"
unfolding trim_slashes
slashes_run = refl

summarize_lem_example : Ends provider chat " some text" 0
summarize_lem_example = summarize_lem provider chat " some text" 0
