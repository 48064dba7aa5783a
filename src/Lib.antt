-- ===== src/Lib.antt =====
-- promo_bot relays offers from Telegram channels: it takes messages in, resolves the links in them to
-- products, has affiliate links made for these, and delivers deals to a Telegram chat for review. This
-- library models its core, file by file, and states what makes it correct.
--
-- The parts, with the code that each models (paths from the root of the repository):
--
--   Domain    src/promo_bot/domain/enums.py and state_machines.py: the states, the transition mappings
--             and the `ensure_*_transition` functions.
--   Delivery  src/promo_bot/database/delivery_repository.py (Delivery.Repository), one function for each
--             method of `DeliveryRepository`, and src/promo_bot/delivery/service.py (Delivery.Service):
--             `assert_publication_allowed` and `DealDeliveryService.send`.
--   Relay     src/promo_bot/database/repositories.py: `SourceMessageRepository` (Relay.SourceRows, its
--             rows, and Relay.Messages),
--             `AffiliateCandidateRepository` (Relay.Candidates) and `TelegramCheckpointRepository`
--             (Relay.Checkpoints); src/promo_bot/relay/catchup.py (Relay.CatchUp), retry.py
--             (Relay.Backoff) and `RelayProcessor.process` of service.py (Relay.Processor);
--             `RelayProcessor._process_link` (Relay.Links.Process) with the link and processed-item
--             repositories and `ensure_for_link` (Relay.Links), `backfill_store` (Relay.Links.Backfill); queue.py (Relay.Queue).
--   Stores    src/promo_bot/stores/urls.py: its patterns (Stores.Patterns) and its functions, up to
--             `canonicalize_store_url` (Stores.Urls).
--   Shadow    src/promo_bot/database/shadow_delivery_repository.py (Shadow.Deliveries).
--   Discovery src/promo_bot/discovery/ranking.py (Discovery.Ranking) and sku_matcher.py
--             (Discovery.Skus), where `str.casefold` is a parameter of which nothing is assumed.
--   Security  src/promo_bot/security/urls.py: `SafeUrlExpander`, with the hosts of
--             src/promo_bot/stores/urls.py.
--   Providers src/promo_bot/providers/aliexpress/policy.py and shopee/policy.py:
--             `select_publishable_price`, and the image addresses they allow (Providers.Images).
--   Sql       no code of the program: what SQL documents of the statements that the repositories make.
--             The engine is a parameter, `Sql`, and `Sql.Engine` shows that it can be met.
--   Base      shared names, lists, results and texts. Tests: runs on concrete rows.
--
-- How the parts interact: the repositories are functions of the table they are given, which is passed
-- on as a session commits it; a call that raises leaves the table as it was, as the session rolls back.
-- Several workers are a sequence of calls in any order, with any arguments and any clock readings, since
-- each call is one transaction. The modules Requests and Life name the calls, and say what each does to
-- a single row, which is where the theorems about all sequences stand; their modules Phases describe
-- the same by a machine of few phases, in terms of its own. The calls that others make between the
-- transactions of `RelayProcessor.process` are a parameter of Relay.Processor; Relay.Links.Process runs
-- the transactions of a link with no other call between them. Relay.Processor runs on
-- Relay.Messages and Relay.Backoff, Relay.Queue on Relay.Messages and Relay.Checkpoints, Relay.Links on
-- Stores.Urls and the rows of Relay.Candidates, and Delivery.Service on Delivery.Repository. The steps of
-- Relay.Queue are those of one event loop: what runs between two awaits is one step.
--
-- Representation: a row is a record of the columns that are read or written, a nullable column an
-- `Option`, a timestamp or a time span a number of microseconds, an amount of money a number of cents,
-- and an exception a value of the error type of the part. The two claims of what SQLite's `ON CONFLICT`
-- does are in `Sql.Rows`. The loop of `SafeUrlExpander.expand` runs on a bound of `max_redirects + 1`
-- rounds, which is enough since each round but the first follows a redirect that was counted against
-- that limit; every other loop is over a list.
--
-- Not modelled: the Telegram client, the HTTP and JSON of the providers, the command line, logging and
-- configuration, which call libraries. Relay.Processor takes the outcome of each link as a parameter,
-- and Relay.Links.Process, which models what becomes of a link, takes the answers of the two resolvers
-- of short links as parameters. The generation history, the coin deliveries, and of the
-- discovery all but the ranking and the matching of variants are not modelled: nothing is claimed of
-- them here.
pub mod Base
pub mod Sql
pub mod Stores
pub mod Shadow
pub mod Discovery
pub mod Domain
pub mod Delivery
pub mod Relay
pub mod Security
pub mod Providers
pub mod Tests
