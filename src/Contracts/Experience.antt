-- ===== src/Contracts/Experience.antt =====
-- Verified feedback, experiences and class memories: src/flowsec/runtime/contracts.py.
use flow_security_agent.Contracts.Enums.{AgentAction, FeedbackSource}
use flow_security_agent.Contracts.Evidence.{is_filled, is_visible}
use flow_security_agent.Prelude.{String, Bool, ◌&&◌, List, all}

pub record VerifiedFeedback : Type 0 where
  pub verified : Bool
  pub source : FeedbackSource
  pub summary : String
  pub outcome_positive : Bool

pub record ExperienceRecord : Type 0 where
  pub experience_id : String
  pub state_summary : String
  pub action : AgentAction
  pub outcome : String
  pub feedback : VerifiedFeedback
  pub keywords : List String
  pub positive : Bool

pub record ValidatedExperienceView : Type 0 where
  pub experience_id : String
  pub state_summary : String
  pub action : AgentAction
  pub outcome : String
  pub keywords : List String
  pub positive : Bool

pub record ClassMemoryRecord : Type 0 where
  pub class_id : String
  pub label : String
  pub description : String
  pub supporting_examples : List String

unfoldable pub feedback_is_valid : VerifiedFeedback → Bool
feedback_is_valid f = is_filled f.summary

-- `ExperienceRecord.validate_retrievable_content`
unfoldable pub experience_is_valid : ExperienceRecord → Bool
unfolding feedback_is_valid
experience_is_valid e =
    is_filled e.experience_id
    && is_filled e.state_summary
    && is_filled e.outcome
    && feedback_is_valid e.feedback
    && is_visible e.state_summary
    && is_visible e.outcome
    && all is_visible e.keywords

-- `ClassMemoryRecord.validate_model_projection`
unfoldable pub class_memory_is_valid : ClassMemoryRecord → Bool
class_memory_is_valid c =
    is_filled c.class_id
    && is_filled c.label
    && is_visible c.description
    && all is_visible c.supporting_examples

-- `ValidatedExperienceView.from_record`: the feedback stays behind.
unfoldable pub view_of_record : ExperienceRecord → ValidatedExperienceView
view_of_record e = record {
  experience_id = e.experience_id;
  state_summary = e.state_summary;
  action = e.action;
  outcome = e.outcome;
  keywords = e.keywords;
  positive = e.positive;
}
