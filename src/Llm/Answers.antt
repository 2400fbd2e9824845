-- ===== src/Llm/Answers.antt =====
-- What a request for a summary answers.
use golang_staterpack.Prelude.{
  String, false, ◌≡◌, refl, ◌∙◌, ◌≢◌, inl, inr, List, [], ◌∷◌, Result, ok, err, Call, Result-cases,
  Bool-cases, str_eq, eq_iff, arith,
}
use Prim.Native.String.{◌++◌}
use golang_staterpack.Errors.{Error, Fault, external, wrap, from_fault}
use golang_staterpack.Strings.Trim.{trim_space}
use golang_staterpack.Strings.Trimmed.{trim_space_idem}
use golang_staterpack.Llm.Defs.{
  Openai, OpenaiClient, client, complete, summarize, summarizer_prompt,
}

module _ {F M L : Type 0} (openai : Openai F M L) (c : OpenaiClient F M) where
  -- The request that a summary of this text sends.
  abbrev pub request : String → Call L Fault (List String)
  request text = openai.generate c.llm (summarizer_prompt text) c.temperature c.max_tokens

  -- The ways in which a request for a summary of `text` ends.
  pub data Ends (text : String) (l : L) : Type 0 where
    blank : trim_space text ≡ "" → (client openai c).summarize text l ≡ (ok "", l) → Ends text l
    unreachable :
        (f : Fault)
        → trim_space text ≢ ""
        → (request text l).0 ≡ err f
        → (client openai c).summarize text l
          ≡ (err (wrap "llm: generate" (from_fault f)), (request text l).1)
        → Ends text l
    silent :
        trim_space text ≢ ""
        → (request text l).0 ≡ ok []
        → (client openai c).summarize text l
          ≡ (err (external ("llm: empty response from " ++ c.model)), (request text l).1)
        → Ends text l
    answered :
        (s content : String) (rest : List String)
        → trim_space text ≢ ""
        → (request text l).0 ≡ ok (content ∷ rest)
        → s ≡ trim_space content
        → trim_space s ≡ s
        → (client openai c).summarize text l ≡ (ok s, (request text l).1)
        → Ends text l

module _ {F M L : Type 0} (openai : Openai F M L) (c : OpenaiClient F M) (text : String)
    (l : L) where
  unfoldable outcome : Result Fault (List String) → Result Error String
  outcome (err f) = err (wrap "llm: generate" (from_fault f))
  outcome (ok []) = err (external ("llm: empty response from " ++ c.model))
  outcome (ok (content ∷ rest)) = ok (trim_space content)

  asks :
      str_eq (trim_space text) "" ≡ false
      → summarize openai c text l
        ≡ (outcome (request openai c text l).0, (request openai c text l).1)
  unfolding summarize complete outcome
  asks full = elim (Result-cases (request openai c text l).0) [
    | inr (f, h) ↦ ground (arith, h)
    | inl ([], h) ↦ ground (arith, h)
    | inl (content ∷ rest, h) ↦ ground (arith, h)
  ]

-- A request for a summary of a blank text answers the empty text and asks nothing of the provider.
-- Of any other text it makes exactly one request, and answers the first choice without the space
-- around it, or an error where the provider fails or offers no choice.
pub summarize_lem :
    {F M L : Type 0} (openai : Openai F M L) (c : OpenaiClient F M) (text : String) (l : L)
    → Ends openai c text l
unfolding summarize outcome
summarize_lem openai c text l = elim (Bool-cases (str_eq (trim_space text) "")) [
  | inl e ↦ Ends.blank ((eq_iff (trim_space text) "").0 e) (rw e refl)
  | inr e ↦
      let full : trim_space text ≢ "" =
        λ h. let same = (eq_iff (trim_space text) "").1 h in absurd (cc) in
      elim (Result-cases (request openai c text l).0) [
        | inr (f, h) ↦ Ends.unreachable f full h (asks openai c text l e ∙ rw h refl)
        | inl ([], h) ↦ Ends.silent full h (asks openai c text l e ∙ rw h refl)
        | inl (content ∷ rest, h) ↦
            Ends.answered (trim_space content) content rest full h refl (trim_space_idem content)
              (asks openai c text l e ∙ rw h refl)
      ]
]
