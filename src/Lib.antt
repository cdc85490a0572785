-- ===== src/Lib.antt =====
-- Embedded telemetry: a binary protocol shared by a host pipeline and a firmware producer.
--
-- The program. `protocol/` defines a frame of 34 bytes (`protocol_types.hpp`), its CRC-32
-- (`crc32.cpp`), and the two directions `serialize` and `deserialize`. `host/` reads frames: a
-- source makes inputs, `FrameIngestor` checks each and puts the valid ones into a bounded queue,
-- a second thread takes them out and `TelemetryMetrics` counts and summarizes them; a text report
-- shows the result. `firmware/` produces frames from a fixed table of samples, and a second thread
-- prints them in hexadecimal.
--
-- The files.
--   Common, Common/*       names shared by all: tests, lists with native indices, signed integers,
--                          what every run comes to (Inevitable)
--   Bits, Bits/*           laws of `&`, `|`, `^` and shifts at every width
--   Protocol/Types         protocol/include/telemetry_protocol/protocol_types.hpp
--   Protocol/Crc32         protocol/src/crc32.cpp; below it one round of the register (Round), the
--                          long division that it performs (Message), what it detects (Detection),
--                          the register as a linear map (Linear), what it makes of single bits
--                          (Pairs, Columns, Sums)
--   Protocol/Serializer    protocol/src/serializer.cpp; Layout: what each place of the output holds
--   Protocol/Deserializer  protocol/src/deserializer.cpp; Reads: the reads as sums; Checks: which
--                          inputs pass and which error the others get
--   Protocol/RoundTrip     serializer against deserializer, both ways
--   Protocol/Corruption    damage between the two; Syndrome, CrcField, BitFlips,
--                          Bursts: flipped bits
--   Host/Metrics           host/src/telemetry_metrics.cpp; Frames: histories and groups of fields;
--                          Sequence, Statistics, Extremes: the analysis against its description
--                          Balance: the atomic counters against each other; Threads: writes of
--                          the two threads commute; Commute, Order, Bag: what does not depend on
--                          the order of the frames
--   Host/Buffer            the interface of the queue that the host links; Fifo: a list that meets
--                          it
--   Host/Ingestor          host/src/frame_ingestor.cpp; Accounting: what a call does
--   Host/Processor         host/src/telemetry_processor.cpp; Drain: the loop on a closed queue
--   Host/Pipeline          host/src/main.cpp: both threads; Forecast: what a state will have counted
--                          at the end; Invariant, Outcome: what is reported; Moves, Progress: what
--                          every run comes to; Work: how long a run can take; Stopped: a consumer that has
--                          stopped early
--   Host/Source            host/src/simulated_frame_source.cpp; Host/Pipeline/Simulated: the program
--                          on these inputs
--   Host/Report            host/src/telemetry_report.cpp: optional values and averages as text;
--                          Text: the report; Lines: its rows; Numerals, Values: which texts stand
--                          for which values; Shows, Injective: what a report tells of its snapshot
--   Firmware/SensorModel   firmware/src/deterministic_sensor_model.cpp
--   Firmware/HexFormatter  firmware/src/hex_formatter.cpp
--   Firmware/Metrics       firmware/src/firmware_metrics.cpp
--   Firmware/MessageQueue  the interface of the kernel's message queue; Fifo: a list that meets it
--   Firmware/Queue         firmware/src/telemetry_queue.cpp; Laws: what its calls do
--   Firmware/Producer      firmware/src/telemetry_producer.cpp
--   Firmware/Transmitter   firmware/src/telemetry_transmitter.cpp
--   Firmware/Main          firmware/src/main.cpp: `main` and both threads; Stream: the items on
--                          their way; Conditions, Invariant, Moves, Outcome, Conclusion: what is
--                          printed and returned; Prints: the transmitter's part of the invariant; Received:
--                          the lines read back; Prefix, Order: the order of the lines, also
--                          after failures; Places, Waits, Progress: what every run comes to;
--                          Work: how long a run can take; Stuck: when no thread takes a step;
--                          Failure, Abandoned, Hangs: after a failed push or pop
--   Link                   the host run on what the firmware has printed
--   */Examples             runs at concrete inputs
--
-- Modelling. A byte, an unsigned field and a counter are native numbers; each operation that wraps
-- has its `% 2 ^ w`, and ranges are hypotheses (`IsByte`, `IsFrame`). `int32_t` and `int64_t` are
-- ℤ, with the two's complement of `std::bit_cast` written out. Arrays, spans and
-- vectors are lists; a read or write by index is one of a list, and the theorems about accepted
-- inputs start from the check of the size, so that no index is out of range. A method on an object
-- returns the new object. Loops recur on the rounds that are left; only the consumer's loop, whose
-- rounds depend on the queue, is given a number of them, and one more than the items is enough.
--
-- The host's threads. `System` is the state of both threads with the metrics and the queue they
-- share; `Step` is a step of one of them: a call on the queue, a write to the counters, or a check
-- between two of these. `Reach` is any sequence of steps from the start of `main`. The queue,
-- `elite::concurrency::SafeConcurrentBuffer`, is a package that is linked: `ConcurrentBuffer` is a
-- record of its operations with what is documented of them, and `push` and `pop` may also throw.
-- `std::jthread::join` is a step that waits for the consumer.
--
-- The firmware's threads. `Firmware.Main.System` is the state of `main`, the producer and the
-- transmitter with the model's index, the counters, the queue and what has been printed; a step is
-- one call or test of one of them. `k_thread_create` is the step that starts a thread, and
-- `k_sem_take` a step that waits until the other thread has given the semaphore. The kernel's queue
-- (`k_msgq`) is a record of its operations with what is documented of them: a call with `K_FOREVER`
-- waits, or returns a status. A `printk` is kept as its format and its arguments. A thread writes
-- counters of its own only, and `main` reads them when both threads have finished.
--
-- Not modelled. The priorities and stacks of the kernel's threads, which only choose among the
-- interleavings, the names of the threads, and what `printk` makes of its arguments. The unit tests,
-- the scripts and the emulator's platform files are not part of the program. The memory order of the
-- atomic counters is not modelled: a call that counts is one step, also where it adds to two counters,
-- as no thread reads them before the join. An exception can come from the host's queue only, not from
-- an allocation. What the source does after an overflow of a signed sum is undefined: the model wraps
-- there, as it gives an empty maximum no value, and the theorems that say what a sum is have the
-- ranges in which none overflows as hypotheses.
pub mod Common
pub mod Bits
pub mod Protocol
pub mod Host
pub mod Firmware
pub mod Link
