-- ===== src/Llm.antt =====
-- The adapters to language models, src/flowsec/integrations/llm/: their contracts, the calls that are
-- retried, and the transport that the tests use.
pub mod Contracts
pub mod Secrets
pub mod Executor
pub mod Backends
pub mod Parsing
pub mod Fake
