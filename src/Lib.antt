-- ===== src/Lib.antt =====
-- astropath-dns-relay: a relay that turns ACME DNS-01 challenges, sent as TSIG-signed DNS UPDATEs,
-- into calls of a DNS provider, with a management API over a database.
--
-- The program and its model, with paths from the repository's root:
-- - DataPlane/Protocol (src/astropath/data_plane/protocol.py): `_process_query` from the bytes of a
--   message to the reply, with the auth gate, the opcode routing and the TSIG error replies.
--   It hands a verified UPDATE to the dispatcher.
-- - DataPlane/Dispatcher, Surface, Routing, Message, Locks (src/astropath/data_plane/dispatcher.py):
--   the zone, the longest-suffix route, the write surface, the TXT values, the provider call, the
--   metrics and the audit row, and the lock of each record with tasks in any order.
-- - DataPlane/Tsig (src/astropath/data_plane/tsig.py): algorithm names and the keyring.
-- - DataPlane/Server, Tcp (src/astropath/data_plane/server.py): the listener from its binds to the
--   graceful end, as a step relation, and the framing of messages on a TCP connection.
-- - Providers/Base, Http, Hurricane, Route53 (src/astropath/providers/*.py): the provider contract,
--   the retried POST, and the two providers over their services.
-- - Observability (src/astropath/observability.py): the metrics, as the trace of the samples.
-- - Crypto (src/astropath/crypto.py), Store (src/astropath/store.py), Models
--   (src/astropath/models.py), Rotation (src/astropath/rotation.py): the key list, the encrypted rows
--   and their encryption with a new key.
-- - Assembly (src/astropath/assembly.py): the keyring, the routes and the shared provider instances
--   from a configuration. Cache (src/astropath/cache.py): loading it from the database, and the
--   snapshot that the data plane reads, with overlapping refreshes as a step relation.
-- - Supervisor (src/astropath/supervisor.py): the restart budget and the loop that restarts a plane.
-- - Api/Auth, RateLimit, Csrf, Login, Correlation (src/astropath/api/auth.py, ratelimit.py, csrf.py,
--   routes_auth.py, correlation_mw.py): who is let in, and what an inbound header puts into the log.
-- - Api/App (src/astropath/api/app.py): readiness, and the files of the single-page application.
-- - Api/Endpoints, Views, Pipeline (src/astropath/api/app.py, schemas.py, session.py): the routes with
--   what they show, and the guards around them, from the request to the state after it.
-- - Api/Rows, Tokens (src/astropath/api/routes_backends.py, routes_domains.py, routes_tsig.py,
--   routes_tokens.py, deps.py): the handlers that change the tables, the refresh of the cache after a
--   change of the configuration, and what loads from the tables then.
-- - Startup (src/astropath/startup.py), Process (src/astropath/main.py): the checks before the process
--   serves, the disposal of its resources and its exit code.
-- - Logging (src/astropath/logging_config.py), Correlation (src/astropath/correlation.py): the redaction
--   of log records, and the id that they carry. Audit (src/astropath/audit.py, api/routes_events.py):
--   the table of outcomes and its pages.
-- - Migrations (src/alembic/versions): the upgrade and the downgrade of the schema.
-- - Prelude: shared helpers. Dns: the interface of DNS names, and a concrete instance. Tests: the
--   instances of the theorems at concrete inputs.
--
-- State is passed explicitly. A method that changes `self` returns the new record; the services that
-- the program writes to are a type `W` with functions on it. Exceptions are `none`, `err` or a
-- constructor of a result type. Names of DNS are a parameter with the laws of dnspython (class
-- `DnsName`); texts that the program walks are lists of code points.
--
-- Fuel: the retry loop has `max_attempts` rounds, and never runs out when that is at least one; the
-- suffix walk has one step for each label of the name and one for the root, which is the number of
-- its candidates; the polls of Route 53 are bounded by the source. The supervision loop can run
-- forever, so that it takes the number of its rounds and says when it has not ended. The TCP loop
-- has one round more than the client sends bytes, and a round reads two of them at least.
--
-- Times are whole numbers of a unit that each file names; clock readings and random numbers are
-- arguments. Numbers do not wrap: the program's are Python's integers.
--
-- Not modelled: the log lines, the patterns that find secrets in a text, the sockets themselves, the
-- wiring of the process, the search for a route and the checks of a request's body, the list of the
-- providers' schemas, settings, and the libraries (dnspython, cryptography, argon2, SQLAlchemy, Alembic,
-- httpx, botocore, FastAPI), which are parameters with the laws that the code relies on. The web front
-- end is not Python.
pub mod Prelude
pub mod Dns
pub mod Observability
pub mod Providers
pub mod DataPlane
pub mod Crypto
pub mod Models
pub mod Rotation
pub mod Store
pub mod Assembly
pub mod Cache
pub mod Supervisor
pub mod Startup
pub mod Process
pub mod Logging
pub mod Correlation
pub mod Audit
pub mod Migrations
pub mod Api
mod Tests
