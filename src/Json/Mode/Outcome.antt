-- ===== src/Json/Mode/Outcome.antt =====
-- The exit of the JSON mode tells whether the input was a request with the fields that the validators
-- demand.
use agent_kv.Prelude.{Bytes, List, ◌≡◌, ◌⊎◌, inl, inr, refl, sym, ◌∙◌, Bool-cases, ℕ}
use mathlib.Core.Bool.{false≢true}
use agent_kv.Exec.{Result, ok, err}
use agent_kv.Json.{JsonLib, Parsed, parsed, malformed, refused}
use agent_kv.Json.Enforcer.{validate_request}
use agent_kv.Json.Shape.{IsRequest}
use agent_kv.Json.Accepts.{validate_request_iff}
use agent_kv.Json.Mode.{
  Response, accepted, parse_error, validation_error, raw_input, answer, answer_parsed, json_mode,
}

module _ {Json : Type 0} (lib : JsonLib Json) where
  -- The exit of the JSON mode for what the parser did: the exception of the parser that is not a
  -- `parse_error`; 1 with the message of a `parse_error`; or, for a value, 0 if it is a request and
  -- else 1.
  abbrev pub Exits : Parsed Json → Result (Response × ℕ) → Type 0
  Exits (refused what) r = r ≡ err what
  Exits (malformed what) r = r ≡ ok (parse_error what, 1)
  Exits (parsed request) r =
      (IsRequest lib request × (r ≡ ok (accepted, 0)))
      ⊎ ((¬ IsRequest lib request)
          × (r ≡ ok (validation_error (validate_request lib request).error, 1)))

  answer_parsed-Exits : (p : Parsed Json) → Exits p (answer_parsed lib p)
  unfolding answer_parsed answer
  answer_parsed-Exits (malformed what) = refl
  answer_parsed-Exits (refused what) = refl
  answer_parsed-Exits (parsed request) =
      let iff = validate_request_iff lib request in
      elim (Bool-cases (validate_request lib request).ok) [
        | inl valid ↦ inl (iff.0 valid, rw valid refl)
        | inr invalid ↦ inr (λ q. false≢true (sym invalid ∙ iff.1 q), rw invalid refl)
      ]

  pub json_mode-Exits :
      (parse : Bytes → Parsed Json) (lines : List Bytes)
      → Exits (parse (raw_input lines)) (json_mode lib parse lines)
  unfolding json_mode
  json_mode-Exits parse lines = answer_parsed-Exits (parse (raw_input lines))
