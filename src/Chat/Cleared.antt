-- ===== src/Chat/Cleared.antt =====
-- app/chat/orchestrator.py: the mapping of a request is gone when its answer is called for.
use maskgate.Base.{
  Exec, List, Option, Result, arith, codes, eq_self, false, get, get-remove, list_eq, nat_eq, none,
  ok, option_eq, pair_eq, refl, resume, resume-of_ok, ◌≡◌,
}
use maskgate.Json.{Json, Fields}
use maskgate.Privacy.{Floats}
use maskgate.PolicyV2.{Platform}
use maskgate.Principal.{PrincipalContext}
use maskgate.Session.{Session}
use maskgate.Mappings.{delete_mapping}
use maskgate.Wire.{PrivacyCheckedPayload, payload_of}
use maskgate.Runtime.{RequestContext}
use maskgate.Chat.Payload.{set_field}
use maskgate.Chat.Types.{ChatExecution, World, Chat, Occasion}
use maskgate.Chat.Masking.{Masking, Prepared}
use maskgate.Chat.Answer.{Orchestrator, finally_clear, put_and_trace}
use maskgate.Chat.Laws.{IsPrepared}

module _ (o : Occasion) where
  -- The store holds no mapping under the request's id.
  abbrev pub IsClear : World → Type 0
  IsClear w = get o.request_id w.mappings.mappings ≡ none

module _ (pf : Platform) (fl : Floats) {C : Type 0} (self : Orchestrator pf fl C)
    (o : Occasion) where
  pub finally_clear-IsClear :
      (x : Result ChatExecution × Chat) → IsClear o (finally_clear pf fl self o x).1.world
  unfolding delete_mapping
  finally_clear-IsClear (r, c) =
      rw (get-remove o.request_id o.request_id c.world.mappings.mappings, eq_self o.request_id) refl

  traced-ok :
      (s : Session) (checked : PrivacyCheckedPayload) (base fs : Fields) (c : Chat)
      → payload_of pf.unicode self.codec self.detect checked ≡ ok (Json.object fs)
      → (trace : Fields) × ((put_and_trace pf fl self o s checked base c).0 ≡ ok trace)
  unfolding put_and_trace
  traced-ok s checked base fs c h =
      (set_field (codes "masked_request") (Json.object fs) base, ground (arith, h))

  -- A checked payload can be read, so `put_and_trace` raises nothing, and what follows clears the
  -- store.
  pub put_then-IsClear :
      (principal : PrincipalContext) (context : RequestContext) (history : Option (List Fields))
      (source : Fields) (s : Session) (m : Masking) (p : Prepared pf fl) (base : Fields)
      (f : Fields → Exec Chat ChatExecution) (c : Chat)
      → IsPrepared pf fl self false principal context history source s m p
      → ((traced : Fields) (d : Chat) → IsClear o (f traced d).1.world)
      → let (r, d) = put_and_trace pf fl self o m.session p.checked base c in
        IsClear o (resume r f d).1.world
  put_then-IsClear principal context history source s m p base f c i clears =
      let (r, d) = put_and_trace pf fl self o m.session p.checked base c in
      let (fs, read, clean) = i.passed.checked.contents in
      let (trace, e) = traced-ok m.session p.checked base fs c read in
      resume-of_ok (λ (x : Chat). IsClear o x.world) r f d e (λ t. clears t d)
