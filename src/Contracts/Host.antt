-- ===== src/Contracts/Host.antt =====
-- What the runtime takes from code that is not in the repository: pydantic's JSON text of a model,
-- the text of `json.dumps(..., sort_keys=True)`, and SHA-256.
use flow_security_agent.Prelude.{String}
use flow_security_agent.Contracts.Values.{Fields}

pub record Host : Type 0 where
  pub dump_json : Fields → String
  pub dumps_sorted : Fields → String
  pub sha256 : String → String
