-- ===== src/Research/Errors.antt =====
-- research/types.py: `ResearchInputError`, with no message.
pub data ResearchError : Type 0 where
  research_input_error : ResearchError
