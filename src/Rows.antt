-- ===== src/Rows.antt =====
-- The rows of the main database (schema.sql) as the Go structs read them, and the tables together.
-- A nullable text column that the code reads through `sql.NullString` is the text itself, with NULL
-- as the empty text; a nullable timestamp is an option. JSON columns hold the value that they encode.
use go_web_search.Prelude.{ℕ, ℤ, Bool, List, Option, String}
use go_web_search.Strings.{Text}
use go_web_search.Clock.{Stamp}

pub data Status : Type 0 where
  pending running done failed : Status

-- The text of a tier column or of a `remember` argument: a tier's name, or another text.
pub data Tier : Type 0 where
  short long permanent : Tier
  other : String → Tier

-- The text of an owner_kind column or of a payload's kind.
pub data OwnerKind : Type 0 where
  memory search : OwnerKind
  unknown : String → OwnerKind

-- The text of a job's type.
pub data JobType : Type 0 where
  embed_job distill_job reembed_job cleanup_job : JobType
  other_job : String → JobType

-- The keys of system_meta.
pub data MetaKey : Type 0 where
  embed_model embed_dim vector_migration vector_table vector_gen : MetaKey

-- A float32 is its bit pattern.
abbrev pub Vec : Type 0
Vec = List ℕ

pub record EmbedPayload : Type 0 where
  pub kind : OwnerKind
  pub id : String
  pub text : Text

pub record DistillPayload : Type 0 where
  pub scrape_id : String
  pub tier : Tier
  pub detail : Text
  pub focus : Text

pub record ReembedPayload : Type 0 where
  pub old_table : Text
  pub new_table : Text
  pub model : Text
  pub dim : ℤ

-- A job's payload: the JSON text of one of the payload structs, or another text, which none of
-- them decodes.
pub data Payload : Type 0 where
  embed : EmbedPayload → Payload
  distill : DistillPayload → Payload
  reembed : ReembedPayload → Payload
  plain : Text → Payload

pub record JobRow : Type 0 where
  pub id : String
  pub job_type : JobType
  pub payload : Payload
  pub status : Status
  pub attempts : ℕ
  pub run_after : Stamp
  pub locked_at : Option Stamp
  pub created_at : Stamp
  pub updated_at : Stamp

pub record CachedUrl : Type 0 where
  pub url : Text
  pub domain : Text
  pub rank : ℕ

-- `results` is none where the column's JSON does not decode.
pub record SearchCacheRow : Type 0 where
  pub id : String
  pub query_norm : Text
  pub query : Text
  pub results : Option (List CachedUrl)
  pub tier : Tier
  pub hit_count : ℕ
  pub expires_at : Option Stamp
  pub fetched_at : Stamp
  pub created_at : Stamp
  pub updated_at : Stamp

pub record FactRow : Type 0 where
  pub id : String
  pub text : Text
  pub source_url : Text
  pub volatility : Text
  pub tier : Tier
  pub hit_count : ℕ
  pub expires_at : Option Stamp
  pub fetched_at : Stamp
  pub created_at : Stamp
  pub updated_at : Stamp

pub record ImageRef : Type 0 where
  pub url : Text
  pub alt : Text
  pub width : ℤ
  pub height : ℤ

-- `raw_html` and `clean_html` are none once trimmed.
pub record ScrapeRow : Type 0 where
  pub id : String
  pub url : Text
  pub run_id : String
  pub http_status : ℕ
  pub content_type : Text
  pub fetched_with : String
  pub robots_allowed : Bool
  pub title : Text
  pub raw_html : Option Text
  pub clean_html : Option Text
  pub text_content : Text
  pub images : List ImageRef
  pub content_hash : Text
  pub etag : Text
  pub last_modified : Text
  pub error : Text
  pub tier : Tier
  pub hit_count : ℕ
  pub expires_at : Option Stamp
  pub fetched_at : Stamp
  pub duration_ms : ℕ
  pub created_at : Stamp
  pub updated_at : Stamp

pub record RunRow : Type 0 where
  pub id : String
  pub mode : Text
  pub artifact_dir : Text
  pub started_at : Stamp
  pub finished_at : Option Stamp
  pub created_at : Stamp

pub record SearchRow : Type 0 where
  pub id : String
  pub run_id : String
  pub term : Text
  pub engine : Text
  pub search_mode : Text
  pub requested_url : Text
  pub landed_url : Text
  pub http_status : ℕ
  pub blocked : Bool
  pub anchor_count : ℕ
  pub error : Text
  pub duration_ms : ℕ
  pub created_at : Stamp

pub record UrlRow : Type 0 where
  pub id : String
  pub url : Text
  pub domain : Text
  pub first_seen_at : Stamp
  pub created_at : Stamp

pub record SearchUrlRow : Type 0 where
  pub id : String
  pub search_id : String
  pub url_id : String
  pub rank : ℕ
  pub created_at : Stamp

pub record RawRow : Type 0 where
  pub id : String
  pub search_id : String
  pub html : Text
  pub created_at : Stamp

-- schema_logs.sql, in a database file of its own.
pub record LogRow : Type 0 where
  pub id : String
  pub run_id : Text
  pub level : Text
  pub source : Text
  pub message : Text
  pub created_at : Stamp

pub record MetaRow : Type 0 where
  pub key : MetaKey
  pub value : Text
  pub updated_at : Stamp

pub record VectorRow : Type 0 where
  pub id : String
  pub owner_kind : OwnerKind
  pub embedding : Vec
  pub model : Text
  pub dim : ℤ
  pub created_at : Stamp

pub record VectorTable : Type 0 where
  pub name : Text
  pub rows : List VectorRow

pub record Tables : Type 0 where
  pub jobs : List JobRow
  pub search_cache : List SearchCacheRow
  pub memory_facts : List FactRow
  pub scrape_cache : List ScrapeRow
  pub runs : List RunRow
  pub searches : List SearchRow
  pub search_raw : List RawRow
  pub urls : List UrlRow
  pub search_urls : List SearchUrlRow
  pub system_meta : List MetaRow
  pub vectors : List VectorTable
  pub logs : List LogRow
