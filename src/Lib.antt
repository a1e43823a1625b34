-- ===== src/Lib.antt =====
-- Relay-Lifeline is a relay that keeps long model requests alive and retries them. Its management
-- console, a React program under web/src, is what this library models: the part that decides, for an
-- operator, which requests are retried, under which policy, what becomes of a request whose delivery
-- is unknown, and what is saved.
--
-- The parts, and how they meet:
-- * Prelude is shared: the names of the libraries, Boolean tests, lists, decimal texts, and `Outcome`,
--   what a promise settles to. Numbers has the numbers of the language as exact fractions, with NaN
--   and the infinities, and their operators. Json has the values of a parsed response body, and the
--   operators of the language on them.
-- * Feed is web/src/eventFeed.ts: readMonitoringEvents is a loop on fuel over any server, and
--   mergeMonitoringEvents a map, a stable sort and a slice. The loop answers `none` only when its fuel
--   is used up; how much is enough is a theorem of Feed/Reading.
-- * Api is web/src/api.ts: the validators, and ApiClient.request with the fields of the client passed
--   on explicitly. Its endpoints, as far as they are modelled, stand below it. The network and the
--   texts of i18next are a parameter, Platform.
-- * Retry is web/src/components/RetryPolicyDialog.tsx: FormState, buildPolicy (build_policy),
--   policyDefaults (Retry/Defaults), the presets and the estimate. Every text of a number field is
--   read as the language reads decimal numerals.
-- * Requests is web/src/views/RequestsView.tsx: which requests may be acted on, search and selection,
--   and in Requests/Actions the handlers of the buttons, as runs that list their calls in order.
--   Requests/Dialog has the buttons of RetryPolicyDialog.tsx in the same form.
-- * Uncertain is web/src/components/UncertainResolutionDialog.tsx, as a machine whose events are the
--   user's and the server's answers, in any order.
-- * Paging is web/src/historyPagination.ts and the loads of the history and incident lists in
--   web/src/App.tsx.
-- * Console is the rest of web/src/App.tsx that is modelled: its state, the end of a session, the
--   confirmation dialog with the promises that it gives, the change of views, and in Console/Saving
--   the save of the settings.
--   Console/Address has the hash of the address: currentView, filtersFromHash and viewHash, over any
--   URLSearchParams that reads back what it writes.
--   Console/Control has the reads refresh and refreshMonitoring, the controls of the relay with the
--   buttons of web/src/components/WorkspaceHeader.tsx, the reload of the settings, and the login and
--   logout. Console/Startup is the effect that asks for the session and then reads what is shown, and
--   the step back in the browser that filters the history and asks about unsaved settings.
-- * Refreshing is refreshEvents of web/src/App.tsx: the loads of the event feed, each with the number
--   of its promise, and what the end of a session does to them.
-- * Search is web/src/components/GlobalSearch.tsx: the results, in Search/Choice where they lead and
--   the arrow keys, and in Search/Loading what is loaded while the user types.
-- * Settings is web/src/views/SettingsView.tsx: the fields of durations and sizes, the edits of the
--   settings and the totals of the governance, the releases of the traffic policy, and the versions of
--   the settings and the notifications.
-- * Captures is web/src/views/CapturesView.tsx: its buttons, whom it shows them to, and their handlers.
-- * Incidents is web/src/views/IncidentsView.tsx: the incident that is expanded, and its detail.
-- * Logs is web/src/views/LogsView.tsx: its pages, its pause and its filters, over any row of events.
-- * Repeating is web/src/components/RepeatTaskDialog.tsx: its form, and the calls of its submission;
--   Repeating/Panel is RepeatTasksPanel.tsx beside it.
-- * Theme is web/src/theme.ts, with the browser's preference as an event.
-- * Formats is web/src/format.ts: spans of time.
-- * Realtime has what the events of the stream do to the lists of web/src/App.tsx, and in
--   Realtime/Receiving how the subscription of web/src/api.ts checks a message before.
-- * Overview is the choice of web/src/components/OverviewPriorityPanel.tsx.
--
-- Console resets what Feed and Paging have loaded, Requests sends the policies that Retry builds, and
-- the client of Api is what all of them call; where a handler calls the client, its answer is an
-- argument. A call that is awaited without anything that can come between is one step; where something
-- can, as in Uncertain, Refreshing, Incidents, Search/Loading and Console/Startup, the call and its
-- answer are two, and the events come in any order. Settings/Releases, Settings/Upkeep, Captures and
-- Console/Control take one press at a time: a handler sees the state as it was when its button was
-- pressed, as its closure does.
--
-- Functions of the language that no definition here could give in full (the trimming, lowering and
-- searching of texts, the reading of dates, the text of a fraction, JSON.stringify) are parameters of
-- the definitions that use them. The numbers of the console are whole and below 2 ^ 53, or come from
-- number fields and are rounded by the program itself, so that no operation on them rounds; only the
-- fields of durations and sizes and the timeout of the captures multiply and divide decimals, and
-- there the rounding to a double, or the sum and the products themselves, are parameters too.
--
-- Not modelled: the relay itself (internal, cmd, in Go), the markup, focus, timers and charts of the
-- views, the style sheets and translations, and the views of the overview, the history and the
-- diagnostics, which render what they are given.
pub mod Api
pub mod Captures
pub mod Console
pub mod Feed
pub mod Formats
pub mod Incidents
pub mod Json
pub mod Logs
pub mod Numbers
pub mod Overview
pub mod Paging
pub mod Prelude
pub mod Realtime
pub mod Refreshing
pub mod Repeating
pub mod Requests
pub mod Retry
pub mod Search
pub mod Settings
pub mod Theme
pub mod Uncertain
