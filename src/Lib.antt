-- ===== src/Lib.antt =====
-- NetWatcher for UniFi: a web application that scans the clients of a UniFi controller, keeps an
-- inventory of devices, and alerts about unknown ones. This library models the application's own
-- logic (the Python package `app`) and proves properties of it.
--
-- The parts, and the files that model them:
--   Base            shared names; Python's texts, exceptions, integers and `int()` (Base/Texts,
--                   Base/Trim, Base/Utf8, Base/Exceptions, Base/Ints, Base/Decimal), lists and
--                   membership
--   Library         interfaces of Python's `ipaddress` and `urlparse`, an IPv4 sample for tests, the
--                   file system that the key file stands in (Library/Files)
--   Mac             app/mac.py: `normalize_mac`; proofs in Mac/Canonical
--   Models          app/models.py: the rows; Models/Tables: lookups, saves, `record_event`;
--                   Models/Values: JSON values
--   Unifi           app/unifi/band.py (Unifi/Band) and app/unifi/client.py (Unifi/Client)
--   Scanner         app/scanner.py: telemetry (Scanner/Telemetry), the upsert of one client
--                   (Scanner/Upsert), alerts and deliveries (Scanner/Alerts), the scan and its lock
--                   (Scanner/Run); proofs in Kept, Decisions, Cooldown, Selection, Growth, Deliveries,
--                   Outcome
--   Security        app/security: names (Security/Names), hosts (Hosts), multiline lists and
--                   networks (Cidrs), the settings row and the policy cache (Settings), changes and
--                   previews (Update), the rate limit (Limiter), the middleware (Access), the
--                   encryption of configurations (Secrets, with crypto_migrate.py), and the key file
--                   (KeyFiles, secrets.py)
--   Cli             app/cli.py: the rekey command over files and channels; proofs in NewKeys,
--                   Rekeying, Success
--   Services        app/services/devices.py: log entries (Services/Log), DeviceService
--                   (Services/Devices); proofs in Edits, Bulk, Blocking, Removal
--   Retention       app/retention.py; proofs in Batches, Deliveries, Windows
--   Notifications   app/notifications/ssrf.py (Notifications/Ssrf), http.py (Http; its client
--                   and limits in Outbound), webhook.py (Values, Webhook; proofs in Headers,
--                   Requests), pushover.py (Pushover), __init__.py (Providers), schemas.py
--                   (Schemas; proofs in Checks, Accepted)
--   Api             app/api/routes_import_export.py: exported cells and saved settings (Api/Tools),
--                   the import of trusted devices (Api/Trusted), the exports (Api/Export);
--                   routes_notifications.py: alert channels (Api/Channels)
--   Oui             app/oui.py: the parser and the upsert of vendors; proofs in Prefixes, Upserts
--   Web             app/web/display.py (Web/Settings, Web/Labels), formatting.py (Web/Labels),
--                   pagination.py (Web/Pagination)
-- The scanner writes the tables that the device service changes and the retention job prunes; the
-- middleware decides, by the policy that the settings give, whether a request reaches them; blocking
-- goes through the UniFi client.
--
-- How the code is represented. A text is the list of its code points; `lower` and `upper` change
-- ASCII letters only. A time is a number of microseconds since the first `datetime` (of the
-- monotonic clock in the rate limit). A table is the list of its rows, a missing value `none`. A
-- call that may raise returns a `Result` with the exception's class; a raise before the commit
-- leaves the database as it was. Integers are unbounded, as Python's. `int()` of a text takes ASCII
-- digits and has no limit on their number. A JSON float is a decimal m / 10 ^ k, an infinity or not
-- a number. What is not the program's own is an argument: the key that the database gives to a new
-- row, the clock's readings, `ipaddress`, `urlparse`, `getaddrinfo`, `b64decode`, the password
-- hasher, `Fernet`, `json`, the responses of the controller, the HTTP client of the notification
-- providers, and, for the scan, the providers themselves.
--
-- Loops are recursive over their lists. The retention loop runs on fuel, one more than the number of
-- rows, since each round but the last deletes a row; the OUI upsert on one unit for each entry. The
-- scan's alert cooldown, `created_at >= now - cooldown`, is tested without subtraction.
--
-- Not modelled: the other FastAPI routes and the pages, which are queries for templates; the
-- templates, the ORM and the migrations; start-up, the scheduler and the worker; the configuration
-- from the environment; logging; the download of the OUI list; the parsing of command lines. These
-- are I/O or glue around the modelled parts. What `pydantic` reads as a URL or as a Boolean is an
-- argument, and a text holds no lone surrogates.
pub mod Base
pub mod Api
pub mod Cli
pub mod Library
pub mod Mac
pub mod Models
pub mod Unifi
pub mod Scanner
pub mod Security
pub mod Services
pub mod Retention
pub mod Notifications
pub mod Oui
pub mod Web
