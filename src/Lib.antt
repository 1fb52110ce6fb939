-- ===== src/Lib.antt =====
-- The SMTP server's queue and what it stands on.
--
-- The server takes messages in over SMTP sessions, keeps them in a queue on disk and delivers them
-- to other hosts. This library models its core.
--
-- A message (src/queue/mod.rs, `Queue.Message`) has domains and recipients, each with a delivery
-- status, and times at which it is to be retried, notified and given up. Its file
-- (src/queue/serialize.rs, `Queue.Serialize`) is a header with a log of status records behind it:
-- `Message::serialize` and `serialize_changes` are `message_serialize` and `serialize_changes` of
-- Queue/Serialize/Writer.antt, `Message::deserialize` is `message_deserialize` of
-- Queue/Serialize/Reader.antt, and the codecs of numbers, texts, replies and errors are in Numbers,
-- Text and Values. The reader's loop over the records runs on one unit of fuel for each byte, and one
-- more; each round takes a byte or ends the loop.
--
-- The queue's task (src/queue/manager.rs, `Queue.Manager`) holds the messages in a map, a heap of
-- schedules and a list of those on hold. State has `Queue` and its operations, Times the next events
-- of a message, Cancel, Retry and Requests the management requests, Files the file operations of
-- src/queue/spool.rs, and Loop the turns of the task. What a delivery does with a message is an
-- argument of a turn, as are the clock and the counters of the limiters; the task runs for as many
-- turns, and a loop over due messages for as many rounds, as are given. Quotas (src/queue/quota.rs, `Queue.Quota`) decide whether a
-- message is let in: a limiter is known by its place in a table of limiters, and a message holds
-- references to them.
--
-- A delivery (src/outbound/delivery.rs, `Queue.Delivery`) starts with the expiry of domains and the
-- throttles of the sender (src/queue/throttle.rs, `Queue.Throttle`, on the limiters of
-- src/core/throttle.rs, `Core.Limiter`), and ends with the report of its task; the connections between
-- the two are not modelled, but for the dialogue below. A rate, which the source counts in floating point, is counted exactly.
--
-- A status notification (src/queue/dsn.rs, `Queue.Dsn`) reports to the sender what became of the
-- recipients: Queue/Dsn.antt has the texts, Queue/Dsn/Notices.antt what is reported of a recipient, and
-- Queue/Dsn/Build.antt `build_dsn`, `send_dsn` and `handle_double_bounce`, which mark the recipients that were reported and set the next notices.
--
-- The dialogue with a host about the recipients of a domain is `deliver` of Outbound/Session.antt
-- (src/outbound/session.rs); what the host answers is the argument `Host` of Outbound/Commands.antt,
-- which has the commands too. The status that an error
-- of it gives is in Outbound/Errors.antt (src/outbound/mod.rs).
--
-- Rules (`Core`) test an envelope (src/core/mod.rs, `Core.Envelope`, and src/queue/mod.rs,
-- `Queue.Envelopes`). src/config/condition.rs lays a rule out as conditions with jumps
-- (Core/Conditions/Compile.antt, `parse_condition`, with fuel for each rule of the tree and each group
-- that is closed), and src/core/if_block.rs evaluates them (Core/Conditions/Eval.antt, `eval`).
-- src/core/throttle.rs computes the keys of limiters (`Core.Key`).
--
-- A session (`Session`) is an envelope too (src/inbound/session.rs, Session/State.antt), and asks the
-- throttles of its stage and those of a recipient (src/core/throttle.rs, Session/Throttle.antt). The
-- sessions share the table of limiters. A handler (Session/Conn.antt) changes a connection and answers,
-- or ends it; its writes fail when so many have been made. src/core/params.rs is Session/Config.antt,
-- and the files of src/inbound are Ehlo, Mail (with Parameters), Rcpt, Auth and Vrfy under Session; data.rs is
-- Session/Received.antt, with `build_message` in Session/Build.antt, `ingest` of session.rs is
-- Session/Ingest.antt, and the loop of spawn.rs is Session/Connection.antt. `World` is what the
-- handlers ask of packages, the network and the clocks, and `Authority` what they ask about a message;
-- both are arguments. Every handler changes a session by the steps of Session/Changes.antt.
--
-- The policies of MTA-STS (src/outbound/mta_sts, `MtaSts`) are read by `parse` and tested by `verify`
-- of MtaSts/Policy.antt. The loop of the parser runs on fuel, one unit for each byte and one more;
-- each round takes a byte or ends the loop.
--
-- A string is the list of its bytes. Machine words are natural numbers, with the wrap-around written
-- out where the code can reach it. An instant is a number of nanoseconds, a clock the pair of what
-- the two clocks of the machine say. Packages are arguments: the hash function, the lower-casing of
-- Unicode text, regular expressions; a lookup list is the function that it answers with.
--
-- Not modelled: sockets and TLS, the receivers that split what a client sends, the headers that are
-- added to a message and the reports to other domains, the connections of a delivery, the
-- reading of the configuration, lookups over the network. `Base` has the shared
-- helpers, and `Tests` runs and witnesses.
pub mod Base
pub mod Core
pub mod Queue
pub mod Session
pub mod MtaSts
pub mod Outbound
mod Tests
