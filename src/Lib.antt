-- ===== src/Lib.antt =====
-- Trokk's web front end (ferr/src): a Next.js dashboard over an experiment in which agents post
-- messages. The pages read their data through hooks, the hooks call service functions, these call an
-- HTTP client, and the client either asks a server or, by default, an in-memory mock of it.
--
-- The files and the code that they model:
-- - Types, Types/Domains: lib/api/types.ts. Records as records, optional fields as `Option`.
-- - Mock, with Mock/Paths (the regular expressions of the paths), Mock/Routes and its children (one
--   function per branch of `handleRequest`) and Mock/Seed and its children (the initial data and the
--   load): lib/api/mock.ts. The arrays that the source mutates are the lists of a `Store` that every
--   operation takes and returns. Mock/Effects/Moves says what a
--   request may do and Mock/Effects that it does, Mock/Invariant what holds
--   between requests, Mock/Calls what each known path answers, Mock/Pages what a page holds.
-- - Http, Client: lib/api/config.ts and client.ts. A failure that is thrown is a value of `Outcome`.
-- - Service and its children: lib/api/service.ts. A cast of the source is a reader of the answer.
--   Service/Directory is an abstract view of the backend, two maps by identifier, and
--   Service/Refinement relates the calls that write to it.
-- - Polling, Polling/Laws: lib/polling.ts.
-- - Hooks and its children: lib/api/hooks.ts. Hooks/Timers is the engine's table of timers;
--   Hooks/Health and Hooks/Poller are the effects with a timer and a subscription, and Hooks/Interval
--   the one with an interval of the engine, as step functions over events. Hooks/Keyed is the effect
--   of Poller with an identifier that can change, each run of it with variables of its own, and with
--   answers in any order; its children relate it to Poller and say what a change leaves behind.
--   Hooks/Views, Hooks/Stats, Hooks/Loading, Hooks/Paging and Hooks/Actions are about the other
--   handlers.
-- - Pages/Metrics: app/metrics/page.tsx. Pages/Ages: the texts of times in app/stream/page.tsx,
--   app/agents/[id]/page.tsx and app/control/page.tsx. Pages/Registry: app/agents/page.tsx.
--   Pages/Profile: app/agents/[id]/page.tsx. Pages/Report: app/reports/[id]/page.tsx. Pages/Landing:
--   app/page.tsx. Pages/Nav: components/TopNav.tsx, with the items of data/index.ts. Pages/Control,
--   Pages/Dashboard, Pages/Investigations, Pages/Settings and Pages/Stream: the page.tsx of that name
--   under app. A component's state and handlers stand in its file, and what it shows in its child View
--   (Shown for the control page): a function from the state to a list of the `Item`s of Ui, which are
--   the visible parts of the JSX in document order. Pages/Sections is about pages that show one of
--   three parts; Pages/Registry/Create and Pages/Control/Ticks follow a submitted form and a bulk
--   action down to the mock backend and back to what the page shows, and Pages/Stream/Live
--   is the stream page over the events of its hook.
-- - Icon and its children: components/Icon.tsx. Icon/Pages and Icon/Signs are the two halves of its
--   cases.
-- - Server: the pages of messages of the Go server: GetPage of internal/stream/cache.go with
--   internal/store/pg/messages.go, internal/store/redis/stream.go and the cursor of
--   internal/model/models.go. The rows of the query's join, what Redis does and the code of a cursor
--   are parameters, and the requests are those that the router passes to the handler. Server/Laws is
--   about an entry of Redis, Server/Serves about the pages one after another, of the twenty rows that a
--   request without a limit gets.
-- - Prelude, Text, Text/Digits, Text/Trim, Sort, Runtime: shared lists, strings, numbers in text, the
--   sort by falling key, and the engine. Tests and its children apply the theorems to small inputs.
-- The paths above that do not start with internal are under ferr/src.
--
-- Strings are lists of UTF-16 code units and numbers are natural numbers: the counters, lengths,
-- times and intervals of the program are integers that are not negative, and where a difference can
-- be negative the model says what it does. The engine is a parameter: `fetch`, the clock, the draws of
-- `Math.random` (in units of 1 / 2^53; the product of a draw is exact, where the engine rounds it) and
-- the conversions of dates, with the documented fact that a time survives its print; 24 hours or more
-- stand for the hours of an invalid date. What an absent field counts as, where a cast promises one,
-- is a parameter too. Every loop is a structural recursion; only the printing of a number runs on fuel, which
-- is the number plus one, and a lemma of Text/Digits reads the print back. A handler runs to its end
-- between two events, as the engine runs it.
--
-- A browser is a parameter as well where a page uses it: `encodeURIComponent` and the parameter of an
-- address that `useSearchParams` reads (the documented round trip of the two), and the texts of a date
-- in the user's language. A page that asks the backend by itself takes the answers as arguments or
-- events. The rules of React that a model states are those of the source's hooks: an effect runs after
-- a render in which its dependencies changed, and its cleanup before the next one.
--
-- Not modelled: styles, colors of states, layout; the export of a file and
-- scrolling; that the mock hands out its own objects by reference, so that a page may see a change
-- before it asks again; and the rest of the Go server, the Python runtime
-- and the database, which are other programs behind `fetch`.
pub mod Prelude
pub mod Text
pub mod Types
pub mod Runtime
pub mod Sort
pub mod Polling
pub mod Http
pub mod Mock
pub mod Client
pub mod Service
pub mod Hooks
pub mod Ui
pub mod Icon
pub mod Server
pub mod Pages
pub mod Tests
