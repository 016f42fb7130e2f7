-- ===== src/Pipeline/Laws.antt =====
-- app/privacy/pipeline.py: what is prepared has passed the guard.
use maskgate.Base.{Bool, List, Option, Result, Text, err, ok, ◌≡◌}
use maskgate.Json.{Json, Fields}
use maskgate.Unicode.{Unicode}
use maskgate.Session.{Session, Entity}
use maskgate.Wire.{PrivacyCheckedPayload, Codec}
use maskgate.Wire.Checked.{IsChecked, check_lem}
use maskgate.Pipeline.{
  Adapters, Upstream, refused_by_adapter, approved_tokens, approved_values, to_provider, guarded,
  prepare,
}

module _ {C : Type 0} (upstream : Upstream) (provider_name : Text) (adapters : Option (Adapters C))
    (u : Unicode) (codec : Codec) (detect : Text → List Entity) where
  -- The payload has passed the guard with the session's replacements and the values that the policy
  -- has approved, and with nothing else.
  pub record Passed (s : Session) (allowed : List Text) (c : PrivacyCheckedPayload) : Type 0 where
    pub provider : Text
    pub target : Text
    pub wire : Json
    pub checked :
        IsChecked u codec detect
          (approved_tokens s)
          (approved_values s allowed)
          provider
          target
          wire
          c

  guarded-Passed :
      (s : Session) (allowed : List Text) (c : PrivacyCheckedPayload)
      (r : Result (Text × Text × Json))
      → guarded upstream provider_name adapters u codec detect s allowed r ≡ ok c
      → Passed s allowed c
  guarded-Passed s allowed c (err e) h = absurd (cc)
  guarded-Passed s allowed c (ok (provider, target, wire)) h = record {
    provider = provider;
    target = target;
    wire = wire;
    checked =
        check_lem u codec detect (approved_tokens s) (approved_values s allowed) provider target
          wire c h;
  }

  pub prepare-Passed :
      (payload : Fields) (s : Session) (allowed : List Text) (stream : Bool)
      (c : PrivacyCheckedPayload)
      → prepare upstream provider_name adapters u codec detect payload s allowed stream ≡ ok c
      → Passed s allowed c
  unfolding prepare
  prepare-Passed payload s allowed stream c h =
      guarded-Passed s allowed c
        (refused_by_adapter (to_provider upstream provider_name adapters payload stream)) h
