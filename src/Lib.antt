-- ===== src/Lib.antt =====
-- The core of Pages, a server that publishes agents' and people's HTML pages with immutable versions
-- and a review.
--
-- Parts, and the files that model them:
--   Common      shared names, lists, texts, and database tables as lists of rows under a key;
--               Common/Table has the statements on them and Common/Rows their laws;
--               Common/Strings has the functions of Go's package strings
--   Jsstr       internal/jsstr/jsstr.go: lengths, cuts and the order in UTF-16 code units
--   Versions    internal/versions, with internal/audit and internal/routens: the state machine
--   Patch       internal/pagepatch/pagepatch.go: counted literal edits of a document
--   Ratelimit   internal/ratelimit/ratelimit.go: fixed windows by key, and the key of an address
--   Cron        internal/cron/cron.go: cron expressions and the fires of a schedule
--   Refresh     internal/versions/freshness.go and refreshhealth.go: the verdict on a page's refreshes
--   Gate        internal/passwordgate/passwordgate.go: delays and turns of password attempts
--   Client      internal/clientip/clientip.go: the client's address behind trusted proxies
--   Jsonv       internal/jsonv/jsonv.go: JSON values, the parser, the printer, ordered objects
--   Tests       runs on concrete inputs
--
-- Versions. Args has the argument rules of args.go (NormalizeSlug, boolArg, normalizeNote, sameDBID)
-- and the slugs that routens reserves. Store has the tables of migrations/001_init.sql as a record of
-- lists, newest row first, with the SQL statements as functions. Guards has LockPage,
-- AssertExpectedVersion, AssertAgentMayMovePointer and movePointer of deploy.go; Prepare has
-- PrepareDeploy, and Deploy has DeployLocked, Deploy and SaveDeck. Review, Settings and Lifecycle have
-- Publish, Rollback, Approve, Reject, SetDisabled, SetApproval, SetTheme, SetPassword, RevealPassword,
-- SetTitle, CreatePage, DeletePage, RestorePage of mutations.go and CreateAndDeployWithTx of deploy.go.
-- Step is all of them as one step function: a transaction is one step, and a failed one leaves the
-- tables as they were (db.WithTxResult). So row locks, the waiting on the unique index of live slugs
-- and the error slug_race, which no single transaction can meet, are not modelled, nor are errors of
-- the database itself, but for the NULL title that the table refuses. Spec is an abstract
-- specification: which single statements an actor may make; Spec/Refine ties the operations to it.
-- Invariant and Safety argue from it alone, but for the audit log: Safety/Audit, Logged, Trail, Deployed
-- and Accounted follow that through each operation. Effects is about single operations: Access (the page
-- and the version that a request names), Publish, Approve, the outcome of a deploy, the same deploy
-- again, and the slugs.
-- What internal/render, internal/pagedata, pagecookie and passwordvault and the library's SHA-256 and
-- unicode.ToLower compute is a parameter, the record Platform: no law of it is assumed.
--
-- A JSON argument is a Value; a number in it is a whole number that is not negative, and any other
-- value is its text. An id that is NULL is 0. Times are milliseconds.
--
-- Patch works on code points, which match as the bytes of valid UTF-8 do; sizes are in bytes. The
-- limit on the result (MaxResultBytes) is an argument. Functions recur on the text; no fuel is used.
--
-- Ratelimit takes the two clock readings of Hit as arguments. A limit and a window are whole
-- numbers. The mutex makes each operation a step. netip.ParseAddr is a parameter. Digits take fuel:
-- three for a byte, four for a word in hexadecimal, which is what these need.
--
-- Cron counts whole minutes, UTC, from the year 1; a search in the past ends there. What package time
-- says of a day (month, day, weekday) is a parameter, of which no law is assumed. Schedule has Matches,
-- Prev, Next and MaxGap; Parse has the parser. A search looks at 2929 days, as the source does, and
-- MaxGap loops 10081 times at most, as the source does. Search says what a search over an interval
-- finds; Fires and Later do so for the loops of Prev and Next, Gaps for the functions; Values, Fields,
-- Bounds and Lists are about the parser.
--
-- Refresh counts milliseconds from the year 1, and the zero time is none. Freshness has FreshnessOf,
-- Health and Verdict have HealthOf, each rule a function of its own, Report the list of all pages with
-- its counts. Rules and Precedence tie the verdict to the documented rules, Alarms to the fires of the
-- schedule. The calendar, and what package pagedata says of coverage gaps, are parameters. A reason is
-- which message, with its arguments.
--
-- Gate. The mutex makes each of tryTake and give a step, and an attempt is a round of Acquire and calls
-- of its release; the channels and the timer, which only decide when a round comes, are left out. The
-- counter's upsert is a function on its row.
--
-- Client has the setting of trusted proxies with all its notations, and which address a request has.
-- netip.ParseAddr of an IPv6 address is a parameter. A mask takes 32 rounds, one for each bit.
--
-- Jsonv. A text and a string are lists of bytes, and a parser's state is what is left of the text: where
-- an error stands is the length of its rest. Utf8 has DecodeUTF8, Texts the string literals of str and
-- WriteString, Numbers has FormatNumber, Parse the parser with its depth limit, Print has Stringify,
-- Object the ordered Object with its index from nine keys on. Doubles, a parameter, is
-- what strconv and the tests of a double compute; the record Rounds has the laws that strconv
-- documents: ParseFloat depends on the number that a literal shows alone, and the shortest form is read
-- back as its double. The parser takes two rounds for each byte and one, and its loop over escapes one
-- for each byte; Termination shows that they are enough. DecodeUTF8 and writeStringSlow take a round for each byte. The
-- exponent of a double has three digits at most, and itoa five. In Escapes, Quoting, Numerals, Layout
-- and Literals are the lemmas on scalars, in Scalars, Loops, Brackets and RoundTrip those on values, Canon
-- is the value that JSON keeps, Parsed and Model are about what the parser gives, Decoding, Plain,
-- Written and Output about valid UTF-8; Refined, Objects and
-- Changes tie Object to a list of entries.
--
-- Not modelled: reading and serving pages, rendering, the transports (HTTP, MCP, command line),
-- sign-in, uploads, portals, setting refresh schedules, and operations tooling. In jsonv: Equal,
-- ToString, Normalize, and Go values other than the parser's.
pub mod Common
pub mod Jsstr
pub mod Versions
pub mod Patch
pub mod Ratelimit
pub mod Cron
pub mod Refresh
pub mod Gate
pub mod Client
pub mod Jsonv
pub mod Tests
