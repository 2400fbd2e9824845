-- ===== src/Api/Production.antt =====
-- What the application of `newFiberApp` shows of an error, by the environment of its configuration.
use golang_staterpack.Prelude.{
  String, true, false, ◌≡◌, refl, ap, ◌∙◌, ◌⊎◌, inl, inr, none, Bool-cases,
}
use golang_staterpack.Errors.{Error, not_found, invalid_input, is, message}
use golang_staterpack.Config.Defs.{Config, is_production}
use golang_staterpack.Transport.Defs.{error_handler, as_fiber, error_reply, by_fiber}
use golang_staterpack.Transport.Answers.{error_handler-hides}
use golang_staterpack.Api.Wiring.{fiber_config}

error_handler-shows :
    (trace : String) (e : Error)
    → as_fiber e ≡ none
    → is e not_found ≡ false
    → is e invalid_input ≡ false
    → error_handler true trace e
      ≡ error_reply 500 "internal server error" "internal_error" (message e) trace
unfolding error_handler
error_handler-shows trace e plain found valid =
    ap (by_fiber true trace e) plain ∙ rw (found, valid) refl

-- Where `APP_ENV` is `production`, two errors that are neither Fiber's, nor `ErrNotFound`, nor
-- `ErrInvalidInput` give the same response, with status 500, so that it shows nothing of the error.
-- In any other environment the response to such an error holds its text.
pub fiber_config-hides :
    {F : Type 0} (cfg : Config F) (trace : String) (e x : Error)
    → as_fiber e ≡ none
    → as_fiber x ≡ none
    → is e not_found ≡ false
    → is x not_found ≡ false
    → is e invalid_input ≡ false
    → is x invalid_input ≡ false
    → let handler = (fiber_config cfg).error_handler trace in
      (is_production cfg.app ≡ true) × (handler e ≡ handler x) × ((handler e).status ≡ 500)
      ⊎ (is_production cfg.app ≡ false)
        × (handler e ≡ error_reply 500 "internal server error" "internal_error" (message e) trace)
unfolding fiber_config
fiber_config-hides cfg trace e x plain plain' found found' valid valid' =
    elim (Bool-cases (is_production cfg.app)) [
      | inl production ↦
          let (same, status) =
            error_handler-hides trace e x plain plain' found found' valid valid' in
          inl (production, rw production same, rw production status)
      | inr elsewhere ↦
          inr (elsewhere, rw elsewhere (error_handler-shows trace e plain found valid))
    ]
