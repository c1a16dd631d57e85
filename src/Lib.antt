-- ===== src/Lib.antt =====
-- The native code of the OpenTelemetry PHP distribution: what its components keep, do and promise.
--
-- The distribution is a PHP extension. In every PHP worker, a request scope runs the PHP side of
-- the instrumentation and reads the worker's configuration. Telemetry is sent to a collector over
-- HTTP by a transport with a queue and a sender thread, either in the worker or in a coordinator
-- process, to which workers send their commands in chunks through a shared message queue. The
-- coordinator also stores the config files of a remote server in shared memory for the workers.
--
-- In a worker, hooks are put around PHP functions, and telemetry is turned into OTLP messages.
--
-- Paths are below prod/native/libcommon/code where they do not begin with prod.
--
-- Prelude: shared names, Boolean tests, lists, association lists for the maps, bytes, words.
--
-- Text: isUtf8, trim, percentDecode, parseUrlEncodedKeyValueString and parseRetryAfter of CommonUtils.{h,cpp}, and CiCharTraits.h. A text is a
-- list of bytes; characters are classified as in the "C" locale.
--
-- Coordinator.Chunks: ChunkedMessage and ChunkedMessageProcessor of
-- coordinator/ChunkedMessageProcessor.{h,cpp} over coordinator/CoordinatorSharedDataQueue.h.
-- recievedMessages_ is Processor.received; sendPayload is send_payload, processReceivedChunk is
-- process_received_chunk, cleanupAbandonedMessages is cleanup_abandoned_messages.
--
-- Coordinator.Workers: coordinator/WorkerRegistry.h and the periodic task of
-- coordinator/CoordinatorProcess.cpp. Coordinator.Dispatch: the commands that
-- coordinator/CoordinatorTelemetrySignalsSender.cpp and WorkerRegistrar.cpp send, and
-- coordinator/CoordinatorMessagesDispatcher.cpp, which carries them out on the transport and the
-- registry. Coordinator.SharedConfig: coordinator/CoordinatorConfigurationProvider.h.
--
-- Transport.Url, Transport.Endpoints: getConnectionDetailsFromURL, transport/HttpEndpoint.h and
-- HttpEndpoints.h. Transport.Async: transport/HttpTransportAsync.h; each part of an operation that
-- holds the mutex is one function, and the sender thread's loop is `wake` and `send`;
-- `join_thread` is what a thread that is joined still does, whether it waits or transmits.
--
-- Config: LogLevel, the parsers of option texts, the options and defaults of
-- ConfigurationManager.h and ConfigurationSnapshot.h, the provider chain of config, and the
-- operations of ConfigurationManager and ConfigurationStorage. A member of the snapshot is found
-- by its position, as the source finds it by its offset.
--
-- Request: RequestScope.h with PhpSapi.h, the one-time task of SharedMemoryState.h as a step
-- relation over the workers, InferredSpans.h as interleaved steps of two threads, and
-- PeriodicTaskExecutor.h, whose `work` makes a step of its thread from one place where it takes the
-- mutex to the next; prefork has as many steps as are left to the thread.
--
-- Logging: the levels of Logger.{h,cpp}, the gate of LoggerInterface.h, and the file sink.
--
-- OpAmp: transport/OpAmp.{h,cpp} with parseUrl of CommonUtils.cpp. A message of the server is one
-- function, as is one round of the heartbeat loop.
--
-- Otlp: the converters of prod/native/libphpbridge/code/OtlpExporter. Otlp.Zval is AutoZval.h: a
-- data type of PHP values, whose methods and properties the engine gives, and exceptions as errors
-- of a Result. Otlp.Attributes is AttributesConverter.h, with the arrays that PHP can hold in Arrays;
-- Otlp.Messages is ConverterHelpers.h and
-- what the converters share; Otlp.Grouping is the loop of the three `convert` functions with its two
-- maps of pointers; Otlp.Spans, Otlp.Logs and Otlp.Metrics are the three converters. A zend_long is
-- its 64 bits, so that a conversion to fewer bits is a remainder.
--
-- Instrumentation: prod/native/extension/code/InternalFunctionInstrumentation.cpp with the storages
-- of InstrumentedFunctionHooksStorage.h, InternalFunctionInstrumentationStorage.h and
-- prod/native/libphpbridge/code/AttrHooksStorage.h. Storages is instrumentFunction, Arguments is
-- argsPostProcessing, Handlers is internal_function_handler, Observers are the observers of user
-- functions and their registration, and WithSpan is prod/native/libphpbridge/code/WithSpanAttributes.cpp.
-- The engine answers calls of hooks as it likes, depending on all that happened before.
--
-- Numbers of 64 bits wrap around (add_word, sub_word, mul_word) where the source computes with them;
-- an int64_t is its 64 bits, compared by signed_leb. Of
-- loops that are not structural, send_loop has the length of the payload and one more as its fuel,
-- because each round takes a byte at least; utf8_loop has the length of the input, for the same
-- reason, as has pairs_loop; decimal_digits has the number itself, because each round divides it by ten; send_rounds
-- counts the retries down as the source counts them up.
--
-- Parameters stand for what is not in the repository: boost's message queue, Protocol Buffers,
-- libcurl and the servers behind it, std::hash, std::stod, std::get_time, the clock, the processes
-- of the system, the Zend engine, and the answers of PHP; the methods of telemetry objects that the
-- converters call are getters. Log statements are left out, but for those of failed hooks. Not
-- modelled are the registration of the extension with PHP, the formatting of log lines, the resource
-- detector, the loader, and the PHP code.
pub mod Config
pub mod Coordinator
pub mod Instrumentation
pub mod Logging
pub mod OpAmp
pub mod Otlp
pub mod Prelude
pub mod Request
pub mod Text
pub mod Transport
