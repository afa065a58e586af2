-- ===== src/Lib.antt =====
-- iot-miniservers: a home-lab backend of small services, and the packages they share.
--
-- A request reaches a service through the guard of its endpoint (packages/tsed-auth), which asks
-- the authenticator (packages/auth) to try the verifiers of the route; the JWT verifier gets its
-- keys from a key source. The MIoT bridge (apis/miot-bridge-api) talks to devices through the
-- client of packages/miot-device: a stamp cycle with one retry over single UDP exchanges of
-- encrypted packets. Commands come over HTTP and MQTT and are resolved against the specification of
-- the device, which a mapper makes from the published one and the overrides for its model; the
-- poller reads the subscribed properties of devices at intervals. The QR manager
-- (apis/qr-manager-api) allocates slugs and redirects scans. Calls of other services go through
-- packages/http-provider, which gets credentials and retries a refused request once, and
-- packages/resilience, which retries failed calls. Scheduled work, like a tick of the poller, is
-- measured through packages/otel. The map feeder (apis/interactive-map-feeder-api) reads colours
-- from a radar image and paints the cities. packages/health and packages/tsed-health report and
-- shut down. The user interfaces sign in through packages/ui-auth.
--
-- The files:
--   Prelude       numbers, lists, texts, decimal numbers, dictionaries, results: what the parts
--                 share. A string is the list of its character codes, a JavaScript `Map` a list of
--                 entries in insertion order.
--   Auth          Outcome: the types of packages/auth/src; Authenticator: Authenticator.ts; Keys:
--                 keys/StaticKeySource.ts, keys/RemoteJwksSource.ts, keys/createKeySource.ts; Jwt:
--                 verifiers/JwtVerifier.ts; Guard: packages/tsed-auth/src/AuthGuard.ts.
--   Miot          packages/miot-device/src. Error: MiotError.ts; Transport: MiotTransport.ts, an
--                 exchange as a machine over the events of its socket and timer, and the commands
--                 in Transport/Commands; Packet: packet/, the bytes of what goes out and comes in;
--                 Device: the stamp cycle of MiotDevice.ts; Client: its commands.
--   Bridge        apis/miot-bridge-api/src. Poller: services/DevicePropertyPollerService.ts, in
--                 Polling whole ticks and the calls that come in between; Spec:
--                 mappers/SimplifiedMiotSpecV2Mapper.ts; Commands:
--                 services/DeviceCommandService.ts, the resolution of a request against the
--                 specification of the device, its execution, and the reads of the poller;
--                 Notifications and Devices: the files of storage/notification-local-storage and
--                 storage/device-local-storage with the handlers (handlers/notifications,
--                 handlers/devices) that change them and the poller; Mqtt:
--                 services/MqttTopicService.ts, MqttListenerService.ts and
--                 NotificationDispatchService.ts; Registry: services/MiotDeviceRegistry.ts, the
--                 clients that the accesses share.
--   Health        packages/health/src. Report: report.ts; Registry: HealthRegistry.ts, its cache and
--                 the run that callers share as a machine over callers and the ends of runs;
--                 Breaker: checks/breakerCheck.ts; of packages/tsed-health/src, Shutdown:
--                 createShutdownHandler.ts, and Endpoints: HealthController.ts,
--                 HealthCheckService.ts and ShutdownState.ts.
--   Http          packages/http-provider/src. Credentials: strategies/TokenExchangeStrategy.ts and
--                 JwtSelfSignedStrategy.ts as a machine over callers, invalidations and the ends of
--                 fetches; Transport: utils/applyTransport.ts; of HttpProviderFactory.ts,
--                 Requests: the replay of a refused request, Adapter: the policy around the adapter
--                 of a request, Calls: both together.
--   Otel          packages/otel/src. Spans: spanTracing.ts; Jobs: jobTelemetry.ts, against an API whose
--                 calls are written down in a log; Schedule: jobs whose runs overlap; Ledger: what
--                 should be measured of them, told without spans and the cache of instruments.
--   Qr            apis/qr-manager-api/src: services/QrCodeService.ts, mappers, and in Handlers the
--                 handlers.
--   Raster        apis/interactive-map-feeder-api/src/v1/services/RasterService.ts: the pixels around a
--                 position; Cities: the image of the cities.
--   Resilience    packages/resilience/src. Policy: the retry loop of ResiliencePolicy.ts; Factory:
--                 ResiliencePolicyFactory.ts.
--   UiAuth        packages/ui-auth/src: AuthContext.tsx, a tab that recovers and renews its session;
--                 Callback: handleCallback.ts and AuthCallback.tsx, the way back from the identity
--                 provider.
--   Tests         the theorems applied at concrete inputs, and runs of the definitions.
--
-- Every asynchronous function is modelled as the value that its promise settles with, and what it
-- changed on the way as a state that it hands on; a thrown error is a value of a result type. Where
-- the order of events matters (a UDP exchange, a tick of the poller, the shared clients of the
-- devices, the health registry, the runs of jobs, the shutdown, the cached credentials, the MQTT
-- client, the file of the devices, the pages of a tab) the events are explicit sequences.
--
-- Loops run over lists, or over the attempts that are left (five for a slug). Two run on fuel: the
-- retry loop, which is given one unit more than its retries, and the replay of a request, where the
-- theorems say which fuel is enough and when none is. The digits of a number get fuel for each unit
-- of it, which is more than they need.
--
-- The libraries that the code calls (jose, axios, cockatiel, mongoose, nanoid, crypto, dgram, the
-- MQTT client, the network, the clock, the stamp store, the helpers of @radoslavirha/utils) are
-- parameters. What the theorems rely on is in the records that they take: IsReliable for the
-- packets, IsUnique and IsConsistent for the collection of codes, IsPlain for requests, IsMeasured
-- and IsFrugal for a client of an API and its policy.
--
-- Not modelled: logging, spans and metrics other than the verification counter and those of jobs,
-- configuration parsing, the rendering of the user interfaces, the storage in MongoDB, and the
-- framework's wiring.
pub mod Prelude
pub mod Auth
pub mod Bridge
pub mod Health
pub mod Http
pub mod Miot
pub mod Otel
pub mod Qr
pub mod Raster
pub mod Resilience
pub mod UiAuth
pub mod Tests
