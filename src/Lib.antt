-- ===== src/Lib.antt =====
-- agentsview reads the session files of coding agents, stores their messages in a database, derives
-- health signals from them, and serves them to clients that it notifies of new data. This library
-- models the reading of JSON lines, the branches of a Claude session, the status of a transcript's
-- end, the timing of its calls, the derivation of the signals, the notification, and the quoting of
-- commands for a shell. Paths are from the repository's root.
--
-- Base, GoText, GoMap: what the modules share. Numbers are the native ℕ. A Go string that the code
-- only compares is a String; one that it looks into is a Text, the list of its bytes. A Go map is an
-- association list whose keys stand once. Where the source ranges over a map, the loop is a function
-- of the entries in the order that they are visited, and its theorems hold for every order.
-- MessageRows: the structs of internal/db/messages.go, with the fields that the code below reads.
-- Signals: internal/signals. ToolFailure, ToolHealth and EditChurn are toolhealth.go, Context is
-- context.go, Outcome is outcome.go and Score is score.go. Each function has its name of the source;
-- a loop is a function of its own, named after what it computes. The two regular expressions are
-- scanners of the text.
-- SignalCompute: internal/sync/signal_compute.go, which takes the rows of a session's messages apart
-- and calls Signals, and computeFinalStreak of internal/sync/engine.go. Package `time` is an
-- argument, the record Clock: the time, and the parser and the printer of timestamps.
-- ToolResults: pairToolResults of internal/sync/engine.go. A pointer to a call is its place, that of
-- its message and its own in it; parser.DecodeContent is an argument.
-- ToolEvents: summarizeToolResultEvents of the same file, with strings.TrimSpace on UTF-8 bytes.
-- MessageFilter: pairAndFilter of the same file, which calls both and drops messages of results alone.
-- Termination: internal/parser/termination.go, which tells from a parsed transcript how its session
-- ended; a map of resolved ids is filled from the messages after the last assistant's.
-- LineReader: internal/parser/linereader.go. What bufio.Reader answers is an argument, as the list of
-- its answers; gjson.Valid and the opening of files are arguments too.
-- ClaudeDag: hasDAGFork, countUserTurns and, of parseDAG, the maps of children and uuids and the walk,
-- of internal/parser/claude.go. A place in the slice of entries is a number.
-- ClaudeSession: parseLinear, the results of parseDAG, mergeQueuedCommands and applyQueuedCommands of
-- the same file. ClaudeMessages: extractMessages and extractMessagesFrom. The record Calls holds what
-- they call: package time, gjson.Get of a line, and what looks into the text of a message.
-- ClaudeFile: ParseClaudeSessionFrom, which parses appended lines through LineReader.
-- SessionTiming: AssembleTiming of internal/db/timing.go, over the rows that the queries return.
-- makeInputPreview, sort.Slice, time.Parse and the orders in which its two maps are visited are
-- arguments; durations are integers that do not overflow.
-- ShellQuoting: shellQuote and buildTarCommand of internal/ssh/transfer.go and buildSSHArgs of
-- internal/ssh/ssh.go, and in Resume the shellQuote of internal/server/resume.go. Words describes how
-- a POSIX shell reads a command of one simple command: quotes, backslashes and spaces, and none where
-- a byte outside single quotes would expand, end the command or is not known to stand for itself.
-- Broadcaster: internal/server/broadcaster.go. The state is the struct, with the channels and the
-- timers that the runtime keeps for it. Each method holds the mutex from its first to its last
-- access, so that it is one function of the state. A step relation adds what comes between: the time
-- passes, a timer fires, its callback gets the mutex at any later time, a client receives. Sending on
-- a closed channel, or closing it again, is the result `none`.
--
-- Bounds. Ordinals and counts are numbers from 0 on, as their callers count them; int does not
-- overflow for the sizes of a session. timerGen wraps at 2^64. The interval
-- of the broadcaster is an integer, also a negative one. A context pressure is the exact
-- quotient that the float64 stands for, and the test of a drop to seven tenths is one of integers,
-- the same for numbers below 2^50. Times are nanoseconds of a clock that does not go back. ToLower
-- is that of ASCII and of the two letters whose lower case is ASCII. Most
-- loops are recursion on a list. Fuel is taken by the loops of lineReader.next and readJSONLFrom, for
-- which one more than the number of lines or of answers is enough; by walkBranch, for which the
-- number of entries is enough; and by countUserTurns, for which 2 to that power is enough, a bound
-- that the proof affords and that the loop does not need. The walks end on files in which no entry
-- stands before one whose uuid it names as its parent.
--
-- Not modelled: the rest of the parsers of the session files, the database and its SQL, the HTTP
-- server around the broadcaster, the command line, configuration, import and update, which are input and output
-- for the most part.
pub mod Base
pub mod GoText
pub mod GoMap
pub mod ShellQuoting
pub mod LineReader
pub mod ClaudeDag
pub mod ClaudeMessages
pub mod ClaudeSession
pub mod ClaudeFile
pub mod SessionTiming
pub mod MessageRows
pub mod Signals
pub mod SignalCompute
pub mod Broadcaster
pub mod Termination
pub mod ToolResults
pub mod ToolEvents
pub mod MessageFilter
