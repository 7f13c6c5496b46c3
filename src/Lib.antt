-- ===== src/Lib.antt =====
-- Verification of the Content Hub, a web application that manages assessment content packages
-- (ACPs). The backend answers requests on an ACP: guards decide who gets in, capabilities what they
-- may do there, the review policy which comments they see and write, and services keep comments,
-- votes and personal collections of items in a database.
--
-- Base holds what all parts share: tests on numbers, lists, equality of keys (Base/Keys), the rows that
-- lookups find (Base/Membership), texts as
-- lists of UTF-16 units with the language's trim (Base/Text), literals as such texts (Base/Units), whole
-- numbers (Base/Integers), JSON values (Base/Json), and the exceptions that services throw as values of
-- a result type (Base/Http).
--
-- Access (backend/src/auth) holds the rows of configurations, roles and credentials.
-- Access/Settings reads the JSON of a feature configuration. Access/Capabilities models
-- capabilities/acp-capabilities.ts and AcpCapabilitiesService.resolve and assert. Access/Guard models
-- AcpAccessGuard.canActivate with resolveUserFromRequestToken, and the explorer guards. Access/Reasons
-- says on which stored rows access rests; GuardLaws, Completeness, GrantLaws and ExplorerLaws are
-- about the three.
--
-- Review (backend/src/comments/review-policy.service.ts) holds comments, groups, categories and
-- actors. Review/Policy models every method of ReviewPolicyService and commentAuthorName. The method
-- getFeatureConfig writes to the actor it is given; here a new actor is returned. Review/Visibility
-- is about reading and voting, Review/Writing about the checks before a comment is written.
--
-- Threads (backend/src/comments/comments.service.ts) is built on the review policy. Threads/Targets
-- models resolveReviewTarget, resolveItemTarget and matchesTarget, Threads/Operations
-- createReviewComment, updateOwnComment and deleteOwnComment, Threads/Votes setVote and
-- getVoteStates. A request is a transaction under the lock of the ACP's configuration, so it is one
-- step on the database. The trigger that removes the votes of a deleted comment is part of the
-- deletion. Store, Changes, Versions, Shape, Requests, VoteLaws and Ballots are about rows, versions, the
-- depth of threads, and votes.
--
-- Collections (backend/src/item-collections) holds one person's collections of items.
-- Collections/Normalize models normalizeState and its helpers, Collections/Operations the six
-- requests that change the state, Collections/Store the transaction around them, Collections/Summary
-- calculateSummary and resolveViews, Collections/Csv the cells of the export. KeyLaws, Invariant,
-- UpdateLaws, RowLaws, Requests, Versions, RowChanges, RoundTrip and CsvLaws are about row keys, valid
-- states, versions, rows, reading back, and exported lines.
--
-- Cache (backend/src/files/async-lru-cache.ts) is AsyncLruCache: a promise that settles is an event
-- that comes later, at any time. Cache/Laws is about its size, its keys, and loads that fail.
--
-- Numbering (backend/src/files/item-row-numbering.service.ts) is ItemRowNumberingService over its
-- table. What is read before the lock and the table under the lock are two arguments. Sorting is
-- about the keys and the order of the rows, Order about what the sorted rows are, Counting about the numbers, Assigning and Recalculating about the
-- two requests that write.
--
-- Jobs (backend/src/files/file-processing-jobs.service.ts) is FileProcessingJobsService: Jobs the
-- row, its snapshot and the reporter, Jobs/Running runJob, Jobs/Requests the requests. A run is one
-- step from start to end, in which the called services report what they like, change the rows of
-- files as they like and end as they like. What else they write, as the index of the ACP, is no part
-- of the state.
-- Steps says what holds along a run, Progress, Endings, Activity and Downloads are about the counts
-- of a phase, how runs end, how many jobs are active, and archives.
--
-- Uploads (backend/src/files/file-mutation.service.ts, file-storage.service.ts) is
-- FileMutationService with the staging of files on the disk, Uploads/Expansion
-- ArchiveExpansionService, Uploads/Requests upload and uploadMultiple. The first check and the
-- transaction see the rows at different times, so both are arguments. Rollback is about requests
-- that fail, Names, Replacing, Rows and Outcomes about the names of an ACP's files.
--
-- Columns (backend/src/item-explorer/reviewer-column-policy.ts) is ReviewerColumnPolicy over JSON
-- values (Base/Json): Columns the policy and its tests, Columns/Projection what is left of items,
-- states and settings, Columns/Responses projectResponse at every depth of a response,
-- Columns/Reviews the review manifest. Released and Settings are about items and about settings.
--
-- Parameters stand for what is not code of the repository: the verification of tokens, the test for
-- UUIDs, the date parser, the German collator, SHA-256, toLowerCase, the ZIP reader, the paths that can
-- be written, String.prototype.trim on ids, new ids and the present. The manifest, the catalog of items
-- and the row keys of an ACP's files are given as data. The services that a job calls are parameters
-- too, whatever they report, whatever they make of the rows of files, and however they end.
--
-- Everything but the reader of exported lines is structural recursion on its input; that reader runs
-- on fuel, one unit for each cell. The limits are the source's: 100 collections, 10000 row keys of at
-- most 500 units, names of at most 100 units, comments of at most 10000.
--
-- Not modelled: the texts of error messages; versions and times that are fractions; the relation-based
-- fallback of the token lookup, which serves test doubles; the reading of threads, counts and exports
-- of comments; the columns of the collection export; the checksum over the numbers of item rows; the
-- subscribers of a job's stream, and a job whose row cannot be saved; the state of the item explorer,
-- the parsing of unit files, the server API, sign-in, the frontend and the other services.
pub mod Base
pub mod Access
pub mod Review
pub mod Collections
pub mod Threads
pub mod Cache
pub mod Numbering
pub mod Jobs
pub mod Uploads
pub mod Columns
