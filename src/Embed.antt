-- ===== src/Embed.antt =====
-- embed.go: the job that fills in the vector of a stored row.
use go_web_search.Prelude.{false, [], ◌∷◌, Option, none, some}
use go_web_search.Strings.{Text}
use go_web_search.Rows.{EmbedPayload, Payload, embed, vector_table}
use go_web_search.Store.{Error, M, ◌>>=◌, ◌>>◌, pure, lift, fail}
use go_web_search.Meta.{meta_get}
use go_web_search.Vectors.{upsert_vector}
use go_web_search.Llm.{LlmClient}

module _ (llm : LlmClient) where
  abbrev pub embed_into : EmbedPayload → Option Text → M (Unit {0})
  embed_into p none = fail Error.no_active_table
  embed_into p (some []) = fail Error.no_active_table
  embed_into p (some (c ∷ s)) = do
    vec ← lift (llm.embed false p.text)
    upsert_vector (c ∷ s) p.kind p.id vec llm.embed_model_name llm.embed_dim
    pure tt

  unfoldable pub embed_handler : Payload → M (Unit {0})
  embed_handler (embed p) = do table ← meta_get vector_table; embed_into p table
  embed_handler _ = fail Error.decode
