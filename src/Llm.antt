-- ===== src/Llm.antt =====
-- The answers of the model service (llm.go), as parameters: `LLMClient.Embed` for one text, which
-- returns one vector or an error, and `LLMClient.Chat`. The embedding of a text as a query and as a
-- document may differ.
use go_web_search.Prelude.{Bool, ℤ}
use go_web_search.Strings.{Text}
use go_web_search.Rows.{Vec}
use go_web_search.Store.{Result}

pub record LlmClient : Type 0 where
  pub embed : Bool → Text → Result Vec
  pub chat : Text → Text → Result Text
  pub embed_model_name : Text
  pub embed_dim : ℤ
