-- ===== src/Api/Remembered.antt =====
-- server.go, `rememberScrapes`: the distillations that are enqueued for the pages of a scrape.
use go_web_search.Prelude.{◌≡◌, All, List, ◌++◌, map, none}
use go_web_search.Strings.{Text}
use go_web_search.Rows.{JobRow, Payload, Tier, distill_job, pending}
use go_web_search.Sql.{select}
use go_web_search.Store.{World}
use go_web_search.ScrapeCache.{ScrapeOutcome}
use go_web_search.Api.{usable}

-- The order of a distillation of an outcome's page.
abbrev pub order_for : Tier → Text → Text → ScrapeOutcome → Payload
order_for tier detail focus o =
    Payload.distill
      (record { scrape_id = o.scrape_id; tier = tier; detail = detail; focus = focus })

abbrev pub payloads : List JobRow → List Payload
payloads = map (λ r. r.payload)

-- A distillation that no worker has tried.
abbrev pub IsWaiting : JobRow → Type 0
IsWaiting r =
    (r.job_type ≡ distill_job) × (r.status ≡ pending) × (r.attempts ≡ 0) × (r.locked_at ≡ none)

-- The rows that are added to the queue.
abbrev pub IsQueued : Tier → Text → Text → List ScrapeOutcome → World → World → Type 0
IsQueued tier detail focus outcomes w w' =
    (new : List JobRow) × (w'.tables.jobs ≡ w.tables.jobs ++ new)
    × (payloads new ≡ map (order_for tier detail focus) (select usable outcomes))
    × All IsWaiting new
