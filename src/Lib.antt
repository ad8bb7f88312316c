-- ===== src/Lib.antt =====
-- HavokRust is a server for a text game over telnet. Its parts, with the files of src/ that are modelled
-- and the modules that model them:
--
-- * Connections, src/connection.rs. Telnet is `handle_telnet_commands`; Lines is `read_line`, with the
--   search for the line end and the backspaces; Receive is the loop of `do_rx_process_thread` that takes
--   lines from the buffer; Session is `struct Connection`, its sends, `disconnect`, `jinja_process`, the two
--   tasks and `start_processing`.
-- * Colours, src/ansicolors.rs. Ansi.Colors has the data and the tables of `initialize`, Ansi.Code
--   `convert_code`, and Ansi.Convert `convert_string`; Ansi.Code.Meaning and Ansi.Convert.Spans describe what
--   codes and messages should look like without them. A connection calls them on everything it sends.
-- * The server, src/server.rs. Server has `struct Server`, `Server::get`, `start_server`, `send_message`
--   and `receive_message`; Server.Reader is `do_read_thread`; Server.Thread is `do_server_thread`, with
--   its start, a new connection, a closed one, a player's lines, what is sent to him, a reconfiguration and
--   what it leaves behind, the listener, the shutdown, and the bound of the transmit channel there, in
--   modules below it; Server.Thread.Book is the abstract view that the thread is compared with, with what it
--   writes to one connection, and Server.Thread.Bounded the select loop with every wait inside its rounds.
-- * Name lookups, src/dnslookup.rs, in Dns: the lookup thread and the wait of `resolve_ip`.
-- * Logging, src/logging.rs, in Logging: the logger, its bounded channel, the
--   tasks that log, and `log_thread`; Logging.Channel puts these together, with the wait at the shutdown
--   barrier, which may open at any time there.
-- * Settings, src/settings.rs, in Settings: the records; Settings.Load has `Settings::new`. `ControlSignal`
--   of src/main.rs stands there too.
-- * The program, src/main.rs, in Program: Program.Prepare is what comes before the tasks, and
--   the others are the main task, the handlers of Ctrl-C and SIGHUP, and how all tasks use the control
--   channel, the barriers and the lock of the logger.
-- * Net has the values that these parts exchange; Base has the helpers that they share.
--
-- How they interact: a reading task per connection sends what it reads to the server, an empty message for
-- the end; the server passes it on to the connection's receive task, which sends lines to the user channel,
-- or, for an empty message, disconnects. What a connection sends goes on the server's transmit channel as
-- network messages, and the server writes it, or, for an empty message, shuts the stream down and forgets
-- the connection.
--
-- Conventions. Code that may panic is an `Outcome`: a result, `panic`, or `out_of_fuel`. A `loop` of the
-- source is `run_loop` on a round that goes on or breaks; the fuel is one more than the length of the
-- buffer, which every round that goes on shortens. `decimal` has fuel 5, enough for a `u16`. Bytes and
-- numbers are natural numbers, and a `String` is its bytes in UTF-8. A `HashMap` is an association list, of
-- which the order stands for the order of an iteration. Tasks are functions from the sequence of their
-- events, in any interleaving, to what they send and how they stand; a `select!` is an event per branch.
-- Sends whose result the source drops are entries of a list. Streams, tasks and channels go by numbers.
--
-- In Program a schedule is any list of choices of who goes on, from one wait to the next.
--
-- Parameters. The crates ansi_term, fancy_regex, minijinja, config and directories, when a barrier of tokio
-- opens and a lock is written, `String::from_utf8_lossy`, sockets, the file system, the resolver,
-- `log_enabled!` and opening the log file are parameters of the model; a theorem that relies on one of them
-- says so in a hypothesis or in the record of the parameter.
--
-- The transmit channel has its bound of 2048. In Server.Thread a round is one step: in it no other task sends,
-- and a send of the thread itself to the full channel, which only the thread reads, is `out_of_fuel`, a wait
-- that never ends; the farewells of a reconfiguration, which are thrown away with their channel, are taken to
-- find room there, and a message of another task comes when it has got in. Server.Thread.Bounded has every wait
-- for room as a move, those farewells and the other tasks included, and Server.Channel and
-- Server.Thread.Capacity have them at the shutdown. When a socket or the queue of a receive task takes what the
-- server thread gives it is a move of Server.Thread.Bounded, which may come late or never. A control channel that
-- lags is an event of Server.Thread, and of its wait for settings.
--
-- Not modelled: the capacities of the channels from the reading tasks to the server and of the user channels; a
-- user channel that lags is an event; how the crates log and simplelog write a line; the docker and deployment
-- files.
pub mod Base
pub mod Net
pub mod Settings
pub mod Ansi
pub mod Connection
pub mod Server
pub mod Dns
pub mod Logging
pub mod Program
mod Tests
