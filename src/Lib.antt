-- ===== src/Lib.antt =====
-- Verification of the backend of the Bodhrik service booking platform: a FastAPI application over
-- PostgreSQL and Redis, in which customers book providers, review completed bookings, and are
-- notified.
--
-- The parts and how they interact. A route authenticates its caller and hands a request to one
-- service, in a session of its own that is closed with the request. A service reads rows, checks
-- who may do what, writes rows under the constraints of the tables, and commits or rolls back.
-- The booking service asks the provider service whether a slot is free and the notification
-- service to tell the participants, in its own transaction. A scheduler runs two jobs that notify
-- about bookings that are near or overdue. Summaries of reviews are asked for through a Redis list,
-- which a worker process empties.
--
-- Files and code:
--   Common        lists measured by native numbers, queries over a table (WHERE, ORDER BY, OFFSET,
--                 LIMIT), tables of pairwise unrelated rows
--   Models        app/models: the enums, the rows, the database as four lists of rows, and the
--                 constraints that an INSERT or UPDATE meets
--   Session       app/db/session.py and what the services use of SQLAlchemy: a committed and a
--                 working database, exceptions as values, flush, commit, rollback, `get_db`
--   Notifications app/services/notification_service.py
--   Providers     app/services/provider_service.py
--   Bookings      app/services/booking_service.py: Transitions has the state machine, Operations
--                 each operation as guards (open_…), writes (write_…, persist_…) and a commit
--   Statistics    the count, average and distribution of ratings that the two summaries share
--   Reviews       app/services/review_service.py
--   Jobs          app/jobs/booking_jobs.py and app/jobs/scheduler.py: Scheduler one call at a
--                 time, Interleaved calls that suspend; Lifespan that of app/main.py
--   Auth          app/services/auth_service.py, app/core/security.py, app/api/deps.py and the login
--                 route
--   Summary       app/services/review_summary_service.py and app/workers/review_worker.py, over a
--                 Redis whose every call may raise
--   Api           app/main.py and app/core/exceptions.py: exceptions as responses, security headers;
--                 the availability route of app/api/v1/providers.py, and app/api/v1/health.py
--   Schemas       app/schemas: the request bodies and queries, their validators, and which pass
--   Routes        app/api/v1: each route over the database with its caller, its validation, its
--                 service and its reply; Dispatch has them as one function `handle`, Consistent what
--                 requests and jobs keep true of the database, Summaries the two routes that
--                 reach Redis
--   Migrations    alembic/versions: the three revisions as changes of a catalog, the backfill of
--                 password hashes, and how the tables that they leave judge an INSERT by names,
--                 types, enum labels, lengths, NOT NULL, rules and unique indexes
--   Tests         runs and instances of the theorems on small data
--
-- Representation. A UUID is a natural number that is only compared; uuid4() is a given stream of
-- them. An instant is a number of microseconds, and time stands still within a call. An average is
-- in hundredths. A dict is a list of pairs in insertion order. An Action is a function from a
-- session to a result and the session that it leaves. Commit fails where the server is away.
-- That a query fails is modelled where the code handles it, in the processing of a summary job.
--
-- Parameters. datetime.isoformat, bcrypt, PyJWT, uuid, str.strip and str.lower, SQL's lower(), ILIKE
-- and order of names, how numbers are printed, and how an average is rounded are arguments of the
-- definitions, and what is taken of them stands in a record of laws (Rounding, DecodesToken,
-- ReadsId, KeepsNames) or a hypothesis.
--
-- Bounds and fuel. The only loop that does not end by itself is the worker's: it runs for a given
-- number of passes, which is how many begin before a signal arrives.
--
-- Not modelled: settings and the parsing of CORS origins, connection pools, the application object,
-- alembic/env.py, and the lengths of columns where a service writes a row (Migrations has them).
-- FastAPI is taken to resolve the caller before it reports what is wrong with a request, and ids in
-- a path as parsed. READ COMMITTED is modelled for creations of bookings and of reviews at once, in
-- the two modules Race; all else runs one request at a time.
pub mod Common
pub mod Models
pub mod Session
pub mod Notifications
pub mod Providers
pub mod Bookings
pub mod Statistics
pub mod Reviews
pub mod Jobs
pub mod Tests
pub mod Auth
pub mod Summary
pub mod Api
pub mod Schemas
pub mod Routes
pub mod Migrations
