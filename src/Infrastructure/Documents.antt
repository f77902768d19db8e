-- ===== src/Infrastructure/Documents.antt =====
-- The documents that backend/infrastructure saves as JSON: Python dicts in the order of their keys.
use dutchkem_trading_ai.Common.{ℕ, String}
use dutchkem_trading_ai.Common.Dict.{Dict}

-- A value of a document. What the code only carries along is kept as its JSON text.
pub data Value : Type 0 where
  word : String → Value
  number : ℕ → Value
  json : String → Value

abbrev pub Document : Type 0
Document = Dict Value
