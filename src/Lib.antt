-- ===== src/Lib.antt =====
-- Verification library of the CubeStack portal (web/).
--
-- The portal is a web application in front of a Kubernetes cluster. A user talks to an assistant;
-- the browser folds the events that the assistant streams into a thread of turns, with the cards
-- of the writes and questions that wait for the user. The server part passes the browser's requests
-- on to the agent API, edits the assistant's providers and the rules for the commands it runs,
-- finds the models that the AI gateways serve and the next run of a schedule, creates development
-- environments, makes and runs scheduled tasks, and serves the dashboards, from which it takes the
-- panels that a selection hides.
-- Each of its routes stands behind the session that a login opens.
--
-- Files, and the code that they are about:
-- - Prelude: numbers, lists and strings of the language. A string is the list of its UTF-16 code
--   units (Text), `undefined` is `none`, and a number is a natural number; where the source
--   subtracts, the result is written so that it stops at 0 as the source's Math.max does.
-- - Thread: web/lib/cubepilot/agentThread.ts with the types of types.ts. The data types of a turn
--   stand in Thread. Children: Narration (narrate, appendText, replaceText), Tools
--   (attachToolResult), Args (fmtToolArgs and the redaction), Cards (the constructors of the cards,
--   addApproval, open cards, remaining seconds), Fold (applyAgentEvent), Select (turnStatus,
--   waitingOnUser, adoptsRestoredThread), Carry (mergeOpenCards, carryOpenCards), Settle
--   (openCardIds, settleCardsAbsent), History (historyToMsgs) and View (toolSummary, seedAnswers). Each function of the source is
--   one function here, from a turn to a turn, with the clock as an argument. A thread is a list of
--   entries, an agent's turn or another message. A stream is a list of events with their times, in
--   any order, folded one by one.
-- - Pilot: web/lib/cubepilot/pilotpath.ts (enc, SUBRESOURCE, upstreamPath). Encoding is the
--   language's encodeURIComponent, its URIError included; Mapped is what a mapping gives. The
--   relation Allowed lists the endpoints without the loop and its guards.
-- - Allowlist: web/lib/cubepilot/allowlist.ts (the builtin rules, ruleKey, mergeRules,
--   effectiveAllowlist, ownedRules, validateRule).
-- - Panels: web/components/perses/conditional-panels.ts (packItems, buildFilteredResource,
--   extractHideRules).
-- - Providers: web/lib/cubepilot/llm.ts (provider names, model ids) with isPlatformProviderName and
--   displayModelName of types.ts. Providers/Meanings is web/lib/cubepilot/provider-names.ts.
-- - Namespaces: web/lib/namespaces.ts (offeredNamespaces, defaultNamespaceOf).
-- - Credentials: web/lib/auth/htpasswd.ts (parseHtpasswd in the parent, loadHtpasswd with its cache
--   and verifyCredentials in Login, as functions from the cache to the cache).
-- - Sessions: web/lib/auth/session.ts (verifySession, signSession, the cookie headers), guard.ts
--   (withAuth) and config.ts (Secret: the lifetime and the key). Sessions/Routes is
--   web/app/api/auth/login, logout and me, and web/proxy.ts.
-- - Cron: web/lib/cubepilot/cron.ts (isValidCron). Children: Calendar (what Date gives in UTC),
--   Values (fieldValues), Next (nextCronRun) and Description (cronDescription). A time is the whole
--   minutes since 1970-01-01, from 1970 on, and a set of numbers is a list.
-- - DevEnvironments: web/app/api/devenvironments/route.ts. The parent has the body of a request and
--   its numbers. Children: Words (the patterns), Arguments (splitArgs), Names (volumeNameBase and
--   the loop behind it), Rows (volumes, variables, ports), Request (the checks, in their order),
--   Create (the resource), Post (POST: the calls of the API and what each answers), Patch (PATCH
--   and DELETE), View and Project (project). Images is web/lib/devenvironments/images.ts.
-- - Gateway: web/lib/cubepilot/gateway.ts. The parent has the discovery of the gateways. Children:
--   Memo (the caches and the calls in flight: the states, and the events that change them; one
--   machine for both maps, where the bases have a single key), Catalog (the catalogues, their
--   union, isChatModel of llm.ts) and Address (URLs, provider names, the token).
-- - Tasks: web/lib/cubepilot/taskcrd.ts (the resources, taskFromCr, reportFromCr, templateFromCr in
--   the parent; resolveParams and renderInstruction in Params) and web/app/api/cubepilot/tasks with
--   its children, and tasktemplates (Routes, Create). A route gives its response with the calls
--   of the API that it makes. An object of strings is the list of its entries, in the order in
--   which the language lists them.
-- A module named for what it proves stands below the module whose definitions it is about. The
-- module Tests of each part runs its definitions on small inputs.
--
-- Parameters: JSON.parse and JSON.stringify (JsonText), the error that `new RegExp` throws on a
-- text, the case mapping of letters, localeCompare, the parser of URLs, the text of a time,
-- base64, bcrypt's comparison, the library of signed tokens, the source of randomness, and the
-- answers of the Kubernetes API and of the gateways. Nothing is assumed of them, but that the case
-- mapping to small letters keeps a text of ASCII units that has no capital letter
-- (Providers/Meanings), that the library of tokens gives the claims of a token back until they
-- expire, and no token is empty (Sessions; the signing and the check are total there, while
-- sessionSecret, which is modelled apart, throws in production without a key, and a login has one
-- time), that the API deletes an environment that it is asked to (DevEnvironments/Unwind), and
-- that it gives a task under its name, and keeps it as it was sent or changed (Tasks).
--
-- Loops: nearly each loop of the source goes once over a list, and is a recursion on that list,
-- which gives a result for each input. Three loops count instead. The search of nextCronRun has as
-- fuel the minutes of 366 days and two: each round goes on by a minute at least, so that this is
-- enough. The loop of fieldValues has as fuel the numbers of its range. The loop that makes the name
-- of a volume unique has two rounds more than there are names: the names that it tries all differ,
-- so that one of them is free.
--
-- Objects: the source copies a turn or a grid item before it changes it, so that no two share
-- state; that an unchanged turn is the same object, which spares a rendering, is not modelled.
-- Grid positions and sizes are natural numbers, and times are whole milliseconds.
--
-- Not modelled: the pages and React components, the routes that only pass requests on, the
-- Kubernetes client, the texts of the languages, the text helpers of agentThread.ts for the view
-- (greetingTexts, phaseText, waitingSeconds), the TLS request of gateway.ts through the API
-- server, the order in which GET lists the development environments, and their routes for options,
-- values, keys and tokens; agent instances and inference services. A body is taken to be JSON with
-- fields of the types that the source declares for it, and the parameters of a template
-- (Tasks/Params) to have no name that each object inherits; no JSON object is taken to have a key
-- "__proto__". The operator is in another language.
pub mod Prelude
pub mod Allowlist
pub mod Credentials
pub mod Cron
pub mod DevEnvironments
pub mod Gateway
pub mod Namespaces
pub mod Panels
pub mod Pilot
pub mod Providers
pub mod Sessions
pub mod Tasks
pub mod Thread
