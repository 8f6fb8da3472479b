-- ===== src/Lib.antt =====
-- The backend of the price checker, backend/app: a service for many tenants in which shops place
-- orders, results of price comparisons are uploaded or collected for them, and recipients are
-- notified of the results.
--
-- Base has lists, texts, the decimal print of a number, sorting, and tables with unique keys. Models
-- has one record for a row of each table of backend/app/*/models.py, and Errors the exceptions.
-- Numbers are natural numbers: ids, instants in microseconds, prices in hundredths. A text is the
-- list of its code points; what Python takes from Unicode's tables is the parameter `Unicode`.
--
-- Database is the session of SQLAlchemy as the services use it. A session has the tables that its
-- statements see, the tables that a rollback restores, and whether it takes statements. A service
-- method is an `Action`: it takes a session and gives a value or an exception, and the session that
-- it leaves. What the code relies on of the library is the parameter `Orm`: the id of a new row is
-- none of those in its table, and a flush that violates a constraint leaves a session that takes no
-- statement until a rollback. Constraints are the `clash` of a flush. A query that looks for one row
-- raises where there are two. Foreign keys, which the services check by queries of their own, and
-- commits, which the routers make, are left out, and one session runs at a time.
--
-- Tenancy is backend/app/tenancy/service.py: tenants, shops and users. Auth is
-- backend/app/auth/service.py: logins, the exchange of refresh tokens and the logout; Tokens is jwt.py
-- over the library that signs, and States keeps the states of a login in Redis, both parameters.
-- Providers are the clients kakao.py and naver.py, over an HTTP client that is a parameter.
--
-- Notifications is backend/app/notifications: Policy is policy.py, and the others are the services of
-- service.py. Recipients, Consents and Templates are NotificationRecipientService,
-- NotificationConsentService and NotificationTemplateService, whose `render_version` is in Render;
-- Deliveries is the part of NotificationDeliveryService that writes and expands events, and asks
-- Render for texts; Fallback is its fallback by SMS, which asks Consents for a consent in force.
--
-- Search is the rest of backend/app/services: Query is the query of search_service.py, over the
-- pattern language of the database in Like, Run is its `run_search`, which charges Quota and asks Cache,
-- cache_service.py, before Query; Ranking and Shipping are ranking_service.py and shipping_policy.py.
-- Redis, JSON and Pydantic are parameters.
--
-- Quota is backend/app/services/quota_service.py over the parameters `Redis` and `Clock`. Procurement
-- is the service of backend/app/procurement/service.py: Orders and Results charge Quota first, Results
-- calls Deliveries for an order that is completed, and Savings is the report.
--
-- Parsers is backend/app/parsers: Units is unit_dictionary.py, Patterns and Options are
-- regex_parser.py, UnitPrice is unit_price.py, and Cached is option_parser.py. Regex is the part of
-- Python's `re` that the patterns need: a matcher that gives the states a pattern can end in, in
-- Python's order, by recursion on the pattern and on the text, beside a relation that has no order in
-- it. Floats is what the code does with doubles and decimals, a parameter with the laws that it
-- relies on.
--
-- Collection is backend/app/price_collection: Jobs makes, finds and logs jobs, Normalization is
-- normalization.py, which asks Parsers what an item's title says, and Runs is `run_job`, which
-- searches by a parameter, as the protocol in the source does, puts the results in place of the
-- earlier ones and calls Deliveries for an order that is completed.
--
-- Every method has the name of its source; a part of it that the model names apart says so. Loops are
-- recursion on the list that they run over, so there is no fuel. The regular expression of a
-- placeholder is read by hand: its parts share no character, so each takes what it can. `raw_excerpt`
-- of a result, and the precision of a column, are left out.
--
-- Not modelled: routers, settings, logging, the clients of other services (the search client, the
-- language model) and migrations, which are input and output.
--
-- Tests has each theorem at concrete tables, with an ORM, a Redis and numbers in
-- place of doubles that do what is asked of them.
pub mod Base
pub mod Models
pub mod Regex
pub mod Floats
pub mod Parsers
pub mod Errors
pub mod Database
pub mod Tenancy
pub mod Auth
pub mod Notifications
pub mod Search
pub mod Quota
pub mod Procurement
pub mod Collection
pub mod Tests
