-- ===== src/Lib.antt =====
-- Verification library of go-web-search, a local web-search and memory service written in Go: it
-- caches search results and scraped pages, distils pages into facts, answers questions from these
-- facts, and runs the background work over a durable queue in one SQLite database.
--
-- How the parts interact. The store's methods (store.go, jobstore.go, memory.go, searchcache.go,
-- meta.go, vectors.go, cleanup.go, retention.go) are SQL statements on one database. The job runner
-- (jobs.go) claims jobs from the queue and hands each to the handler that wiring.go registers for its
-- type: embed.go, distill.go, reembed.go and cleanup.go. Questions go through gate.go, which reads
-- the facts of memory.go by the vectors of vectors.go; searches go through searchcache.go. A changed
-- embedding model starts a migration (reembed.go). A run of searches is recorded in store.go; the
-- scraper (scraper.go) serves a page from scrapecache.go or fetches it, past the robots.txt of its
-- origin (robots.go), and cleans it (clean.go). provenance.go reads the way from a search over its URLs
-- and pages to the facts, and logstore.go writes the log lines to a database of their own.
--
-- Which file models which part:
--   Rows, Sql         schema.sql: the rows as records, the tables, and the SQL that statements use
--   Store             store.go: the world (tables, clock, identifiers, verdicts of the driver), and a
--                     store method as a function from worlds to a result with a world
--   Clock             the timestamps as text, and their order as text
--   Jobs, Jobs/*      jobstore.go, jobs.go (Jobs/Runner: one function for each goroutine's iteration;
--                     Jobs/Pool: the goroutines as steps, with crashes and restarts)
--   Wiring, Wiring/*  wiring.go, and the registered handlers on the queue's rows
--   Tier, Freshness   tier.go, and `freshEnough` of searchcache.go with `volatilityMaxAge` of gate.go
--   Meta, Vectors     meta.go, vectors.go
--   Memory, Gate      memory.go, gate.go
--   SearchCache       searchcache.go
--   ScrapeCache       scrapecache.go
--   Resolver          resolver.go
--   Runs, Runs/*      store.go: runs, searches and URLs (Listing: the read side)
--   Log, Log/*        logstore.go
--   Provenance        provenance.go (Graph: the causality graph)
--   Clean, Clean/*    clean.go, on the tree of the html package
--   Robots            robots.go
--   Extract, Engines  extract.go, engine.go
--   Harvest, Harvest/*  harvest.go, with the browser as a parameter
--   Api, Api/*        server.go: the operations behind REST and MCP
--   Explorer          explorer.go
--   Stats, Stats/*    stats.go: the caches, the embeddings and (Queue) the jobs
--   Scraper           scraper.go (One: the outcome of one URL; Groups: the URLs by host)
--   Cleanup           cleanup.go, retention.go
--   Embed, Reembed    embed.go, reembed.go
--   Distill           distill.go
--   Strings, Decimal  the functions of Go's strings and strconv packages that the code calls
--   Llm               llm.go: the answers of the model service, a parameter
--   Examples          concrete rows and worlds
-- A definition has the name of its Go function in snake case; a statement or a loop of a function has
-- a name of its own beside it.
--
-- State and errors. A store method runs on a World and returns a Result with the world that it leaves;
-- what was written before an error stays written, except in a transaction. Whether the driver performs
-- the next statement is a list of verdicts in the world, so a theorem about every world speaks of every
-- place where a statement may fail; a theorem that needs the statements to succeed says so (the list is
-- empty, and every statement is performed). The clock moves by a list of ticks, one for each reading.
--
-- Bounds. Loops are recursions on the list that they walk, so no fuel is needed, except for the
-- decimal digits of a number n, where n + 1 steps are enough. Instants are nanoseconds since the year
-- 0, and the order of formatted timestamps is that of the years 0 to 9999. Similarities and distances
-- are in millionths. Letters outside ASCII are their own lower and upper case. A database row is
-- unique by its id only where a theorem says so.
--
-- Not modelled: the driving of the browser (browser.go, search.go), the routing and encoding of
-- server.go, configuration files and the web client, which are I/O, projection.go, and of stats.go the
-- counts of whole tables. The text form of a vector, and VACUUM, change no row that another part
-- reads. The rows of a migration are embedded one after another here, and the hosts of a scrape are
-- visited one after another; of the cancellations only two are modelled, that of a whole scrape (its
-- total timeout, and the caller's as a parameter) and that of a wait for the crawl delay.
pub mod Prelude
pub mod Clock
pub mod Strings
pub mod Rows
pub mod Sql
pub mod Store
pub mod Tier
pub mod Jobs
pub mod Meta
pub mod Vectors
pub mod Llm
pub mod Freshness
pub mod Memory
pub mod Gate
pub mod SearchCache
pub mod Cleanup
pub mod Decimal
pub mod Embed
pub mod Reembed
pub mod Distill
pub mod ScrapeCache
pub mod Resolver
pub mod Wiring
pub mod Runs
pub mod Log
pub mod Provenance
pub mod Clean
pub mod Robots
pub mod Scraper
pub mod Extract
pub mod Engines
pub mod Harvest
pub mod Api
pub mod Explorer
pub mod Stats
pub mod Examples
