-- ===== src/Llm/Contracts/Boundary.antt =====
-- The boundary between instructions and evidence in a request.
use flow_security_agent.Contracts.Enums.{EvidenceTrust}
use flow_security_agent.Contracts.Visible.{check_text}
use flow_security_agent.Llm.Contracts.{
  ContentKind, LlmMessage, MessageContent, MessageRole, begins_with_system, content_is_valid,
  is_given, is_instruction, is_system, is_untrusted, message_is_valid, messages_are_valid,
}
use flow_security_agent.Contracts.Visible.{passes, Rejection}
use flow_security_agent.Contracts.Enums.{EvidenceTrust-discrete}
use flow_security_agent.Prelude.Distinct.{All-map}
use flow_security_agent.Prelude.{
  same_self, Bool, true, false, not, ◌&&◌, List, [], ◌∷◌, Option, none, some, ◌≡◌, refl, arith, All,
  any, all, and→both, All-of_all-true,
}

-- A block in a message of a role: a text that a model may see; an instruction carries no trust, so
-- that evidence is data; and a system message holds nothing but instructions.
pub record IsBounded (role : MessageRole) (c : MessageContent) : Type 0 where
  pub visible : check_text c.content ≡ none
  pub untrusted :
      c.trust ≡ some EvidenceTrust.untrusted_evidence → c.kind ≡ ContentKind.evidence_data
  pub instruction : c.kind ≡ ContentKind.instruction → c.trust ≡ none
  pub system : role ≡ MessageRole.system → (c.kind ≡ ContentKind.instruction) × (c.trust ≡ none)

passes-none : (o : Option Rejection) → passes o ≡ true → o ≡ none
passes-none none h = refl
passes-none (some x) h = cc

is_given-false : (o : Option EvidenceTrust) → is_given o ≡ false → o ≡ none
unfolding is_given
is_given-false none h = refl
is_given-false (some t) h = cc

is_instruction→eq : (k : ContentKind) → is_instruction k ≡ true → k ≡ ContentKind.instruction
unfolding is_instruction
is_instruction→eq ContentKind.instruction h = refl
is_instruction→eq ContentKind.evidence_data h = cc

is_instruction-false : (k : ContentKind) → is_instruction k ≡ false → k ≡ ContentKind.evidence_data
unfolding is_instruction
is_instruction-false ContentKind.instruction h = cc
is_instruction-false ContentKind.evidence_data h = refl

is_untrusted_self :
    (o : Option EvidenceTrust) → o ≡ some EvidenceTrust.untrusted_evidence → is_untrusted o ≡ true
unfolding is_untrusted
is_untrusted_self o h = rw h (same_self EvidenceTrust-discrete EvidenceTrust.untrusted_evidence)

-- The tests of `validate_boundary`, taken apart.
record Tests (c : MessageContent) : Type 0 where
  sees : passes (check_text c.content) ≡ true
  separates : (is_untrusted c.trust && is_instruction c.kind) ≡ false
  bears : (is_instruction c.kind && is_given c.trust) ≡ false

tests-of :
    (a b c d e : Bool)
    → (not a && not b && c && not d && not e) ≡ true
    → (c ≡ true) × (d ≡ false) × (e ≡ false)
tests-of a b c d e h = ground arith

content_is_valid-Tests : (c : MessageContent) → content_is_valid c ≡ true → Tests c
unfolding content_is_valid
content_is_valid-Tests c h =
    let (sees, separates, bears) = tests-of _ _ _ _ _ h in
    record { sees = sees; separates = separates; bears = bears }

module _ (role : MessageRole) (c : MessageContent) (t : Tests c)
    (instructs : is_system role ≡ true → is_instruction c.kind ≡ true) where
  no_trust : is_instruction c.kind ≡ true → c.trust ≡ none
  no_trust h = is_given-false c.trust (ground (arith, t.bears))

  untrusted_data :
      c.trust ≡ some EvidenceTrust.untrusted_evidence → c.kind ≡ ContentKind.evidence_data
  untrusted_data h =
      is_instruction-false c.kind (ground (arith, t.separates, is_untrusted_self c.trust h))

  bounded : IsBounded role c
  unfolding is_system is_instruction
  bounded = record {
    visible = passes-none (check_text c.content) t.sees;
    untrusted = untrusted_data;
    instruction = λ h. no_trust (rw h refl);
    system =
        λ h. (is_instruction→eq c.kind (instructs (rw h refl)), no_trust (instructs (rw h refl)));
  }

IsBounded-all :
    (role : MessageRole) (cs : List MessageContent)
    → all content_is_valid cs ≡ true
    → (is_system role && any (λ (c : MessageContent). not (is_instruction c.kind)) cs) ≡ false
    → All (IsBounded role) cs
IsBounded-all role [] v h = tt
IsBounded-all role (c ∷ cs) v h = (
  bounded role c (content_is_valid-Tests c (and→both _ _ v).0) (λ s. ground (arith, h, s)),
  IsBounded-all role cs (and→both (content_is_valid c) (all content_is_valid cs) v).1
      (ground (arith, h)),
)

message_tests : (a b c : Bool) → (a && b && not c) ≡ true → (a ≡ true) × (c ≡ false)
message_tests a b c h = ground arith

message_is_valid-IsBounded :
    (m : LlmMessage) → message_is_valid m ≡ true → All (IsBounded m.role) m.content
unfolding message_is_valid
message_is_valid-IsBounded m v =
    let (contents, roles) = message_tests _ _ _ v in IsBounded-all m.role m.content contents roles

-- A request passes the validators of its messages only if it begins with a system message, and every
-- block of every message is a text that a model may see; untrusted evidence stands in data blocks of
-- user messages, an instruction carries no trust, and a system message holds instructions only.
pub messages_are_valid-IsBounded :
    (ms : List LlmMessage)
    → messages_are_valid ms ≡ true
    → (begins_with_system ms ≡ true) × All (λ (m : LlmMessage). All (IsBounded m.role) m.content) ms
unfolding messages_are_valid
messages_are_valid-IsBounded ms h =
    let (each, first) = and→both (all message_is_valid ms) (begins_with_system ms) h in
    (
      first,
      All-map (λ m. message_is_valid m ≡ true)
          (λ (m : LlmMessage). All (IsBounded m.role) m.content) message_is_valid-IsBounded ms
          (All-of_all-true message_is_valid ms each),
    )
