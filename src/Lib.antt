-- ===== src/Lib.antt =====
-- Verification library of Cloche, a runner of agent workflows: a workflow is a graph of steps
-- written in a small language, a run of it is driven by an event loop that launches steps, takes
-- their results and follows the wires that leave them.
--
-- The parts and how they meet. internal/dsl turns the text of a workflow file into the workflows
-- of internal/domain/workflow.go, whose Validate says which of them may run;
-- internal/engine/engine.go runs one and keeps its record, internal/domain/run.go; the states of
-- the records of a group are merged into the status of an attempt or a task, and into the health
-- of a project. internal/host/loop.go hands the open tasks of a project to runs of its main
-- workflow and records an attempt for each; internal/host/poll_coordinator.go polls the scripts
-- that decide the human steps of those runs; internal/logstream/broadcaster.go passes their log
-- lines on to whoever watches; internal/adapters/docker/ignore.go says which files of the
-- project a container does not get, and pool.go there routes the results of steps from the
-- agents in the containers to those who wait for them. internal/adapters/agents/prompt puts the
-- prompt of an agent together and runs the agent's commands until one decides the result of the
-- step; internal/host/runner.go says which results a resumed run takes over from the one before;
-- the trigger of internal/evolution/trigger.go puts the evolution of prompts off until the runs
-- of a workflow are quiet, and fitness.go says which candidates are worth keeping;
-- internal/adapters/grpc/server.go sends the logs of steps in chunks.
--
-- Files. Base holds what the others share: results, maps as association lists, int64, lists, and
-- in Base/Text the split and the join of strings. Workflow (internal/domain/workflow.go) has the
-- types of the graph, NextSteps, ContainerID, ResolveAgents and ValidateConfig;
-- Workflow/Validate is Validate, with its specification in Spec and the proofs in Sets, Checks,
-- Correct and Routes. Run (internal/domain/run.go) is the record with RecordStepStart,
-- RecordStepComplete and RecordStepSkipped as record_start, record_complete and record_skipped;
-- Run/Aggregate has WorseState, latestByWorkflowName, AttemptAggregateStatus and
-- TaskAggregateStatus. Health and Task are internal/domain/health.go, attempt.go and task.go.
-- Engine, Engine/Wiring and Engine/Events are Run of internal/engine/engine.go: launch_step is
-- the closure launchStep, route the wiring and the collects behind a result, turn one turn of
-- the select, run the whole; Engine/Invariant, Returns, Concludes and Terminates hold the
-- proofs. Dsl/Token and Dsl/Lexer are internal/dsl/token.go and lexer.go; Dsl/Parser, with
-- Blocks, Fixups and Workflows, is internal/dsl/parser.go, one function for each method;
-- Complete, Handled and Fuel hold its proofs. Pipeline puts parser, validation and engine
-- together. Run/Text is the column of active steps in internal/domain/run.go.
-- Logstream/Broadcaster is internal/logstream/broadcaster.go, one function for each method;
-- Open, Sends, Follows and History hold its proofs. Host/Polls is
-- internal/host/poll_coordinator.go: register, unregister, scan (the critical section of
-- DrivePolls), send_fail, trigger_poll and return_poll (the two halves of triggerPoll);
-- Invariant and Delivery hold its proofs. Host/Loop is internal/host/loop.go: new_phase_loop,
-- pick_task_from_phase, get_task_snapshot and the counters, with Attempts for
-- createAttemptForTask and completeAttempt and Runner for runPhased and the goroutines that it
-- launches; Picks and the modules below Runner hold the proofs. Docker/Ignore is
-- internal/adapters/docker/ignore.go: parse_clocheignore, is_ignored and match_glob, with proofs
-- in Rules, Doublestar and Splits. Docker/Session and Docker/Pool are the ContainerSession and
-- the routing of the ContainerPool in internal/adapters/docker/pool.go (begin_step and end_step
-- are the two halves of ExecuteStep), with proofs in Session/Once and Pool/Names. Host/Resume is
-- buildPreloadedResults of internal/host/runner.go, the walk that says with which results a
-- resumed run starts; Reached says what the walk should find. Prompt is
-- internal/adapters/agents/prompt: Prompt/Text has the functions of strings that it uses,
-- Prompt/Template is template.go (resolve_str is resolveStr, eval_directive evalDirective,
-- resolve_bare_vars resolveBareVars), Prompt/Assemble is assemblePrompt and Prompt/Commands is
-- Execute of prompt.go, with ExtractResult of internal/protocol/result.go. Evolution/Trigger and
-- Evolution/Fitness are trigger.go and fitness.go of internal/evolution. Server/Chunks is
-- splitIntoChunks of internal/adapters/grpc/server.go. Tests and the modules below it apply the
-- theorems to concrete data.
--
-- How the code is modelled. A Go map is an association list, and a loop over it takes the order
-- of the list. A time is one reading of the clock for each operation, none for the zero time.
-- The executor of steps is no part of the model: a launched step stands in the list in_flight,
-- and a schedule, a list of events, says which goroutine reports next, what it reports and when
-- the context is cancelled; every order of reports is some schedule. A nil dereference is the
-- value panicked. Errors are values with what their messages quote. time.ParseDuration is a
-- parameter of the parser. Integers of the source that wrap round are int64 (Base/Int); counters
-- of steps are natural numbers. Where the code shares state between goroutines under a mutex,
-- each critical section is one step and a list of steps or events is one interleaving of them;
-- objects that are shared by pointer are addresses in a store. The loop of the host is a state
-- machine whose stages are the places where runPhased waits or where others can see it; a send
-- that would block is an event that cannot happen. The functions that the loop calls from
-- outside (list-tasks, main, the store's answers) are inputs of its events, and so are the
-- failures of the store's reads and writes. In Docker/Ignore a string is its list of bytes, and
-- filepath.Match and filepath.Base are parameters. In Prompt a text is its list of code points;
-- the shell, the files, the key-value store and the agents are parameters that answer and change
-- a world of any type, which each call hands on to the next. The goroutine of a timer deletes
-- its entry under the lock in one step and calls RunFunc in a later one. A float64 is a type
-- with comparisons that are transitive and irreflexive.
--
-- Fuel. The loop of the engine is over the schedule; it returns as soon as the schedule holds as
-- many results as steps may be launched. The loops of the parser take fuel, four more than the
-- characters of the input; every turn takes a token, and a token takes at least one character,
-- so that it does not run out. The walk over the steps to preload has one more than the results,
-- since each nested call visits another step with a result; the resolver of a template has one
-- more than the characters, since each turn and each nested call has less text than the one
-- before.
--
-- Not modelled: the store, the daemon's handlers but for the chunks of logs, the starts and the
-- ends of containers, the web pages and the commands, which are input and output; the mutator,
-- which is a set of regular expressions; the deadlines of steps, which the executor's side sees;
-- of the runner and the executor of the host, all but the preloaded results, since they start
-- processes; of the agents, the JSON of their streams, the usage of tokens and the errors of
-- reading and writing the file that counts the attempts of a step; of the evolution, the files,
-- the averages in floating point, the random choices and the language model; of the loop,
-- NewLoop with its task assigner, a second Start of a loop that was stopped (the server makes a
-- new loop instead) and the readers of task lists (JSON and files); the log files.
pub mod Base
pub mod Workflow
pub mod Run
pub mod Engine
pub mod Dsl
pub mod Host
pub mod Logstream
pub mod Docker
pub mod Pipeline
pub mod Prompt
pub mod Evolution
pub mod Server
pub mod Health
pub mod Task
pub mod Tests
