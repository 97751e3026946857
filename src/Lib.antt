-- ===== src/Lib.antt =====
-- Secure keypad: the TypeScript packages of the SDK, and its checks of device evidence.
--
-- The SDK renders a keypad in native code, so that the entered secret never reaches the host
-- application, and authenticates through OPAQUE. Its TypeScript packages hold the boundaries:
-- what a host may configure, what a native view may tell it, and which requests a server lets
-- through to the OPAQUE implementation.
--
-- The parts and their files:
--
-- - Js, Js/Text, Js/Coerce: JavaScript values as they cross a boundary, strings as lists of
--   UTF-16 code units, `String(value)`, and host calls that return or throw.
-- - Contracts: packages/contracts/src/index.ts. Patterns has the regular expressions and
--   `utf8ByteLength`, Checks the shared tests, Layout `validateKey` and `validateLayout`, Policy
--   `isCanonicalInputKeyId` and `validateLayoutForPolicy`, Theme `validateTheme`, Events
--   `validateMaskedState` and `validateResultEvent`, Defaults the default layouts and theme. A
--   validator is a function into the list of its messages, in the order of the source's pushes.
-- - ServerNode: packages/server-node/src/index.ts. Http has `isReady`, `routePath`,
--   `isJsonContentType` and `declaredBodyLength`; Evidence `isValidFinancialContext` and
--   `isFreshBoundEvidence`; Replay `consumeFinancialEvidence`; Body `readBoundedBody`; Response
--   `genericResponse` and `responseFromDelegate`. Stages and Handler are `createOpaqueHandler`:
--   each guard with an early return is a stage of a small monad whose state is the map of used
--   evidence and a log of the host code that ran. Handler/Gate, Outcome and Once hold what the
--   handler guarantees as a whole.
-- - ReactNative: packages/react-native/src/index.ts. Props has `validateSecureKeypadProps` and
--   `getSecureKeypadNativeProps`, Events the event validators and
--   `createSecureKeypadEventHandlers`, View the function that `getSecureKeypadView` gives to
--   `forwardRef`. It uses Contracts for the layout, the theme and the events, as the package
--   does.
-- - Web: packages/web/src/index.ts. Base64 has `encodeBase64Url` and `decodeBase64Url`, Mode
--   `detectWebAuthnSupport` and `assertWebAuthnMode`, Extensions `copyBoundedExtensionValue`, Options
--   `toNativeCreationOptions` and `toNativeRequestOptions` with the checks of each field, Credential
--   the two serializers, and Passkey `createPasskey` and `getPasskey`, which put these together around
--   a call of the browser. Outcome is what any of them ends with: a value, or what it throws.
--   Controller is `createPasskeyController`, its promises as turns of the event loop.
-- - Evidence: the release scripts that check the record of a device run. Text has the operations
--   on texts that they share; Symlinks is scripts/evidence-path.mjs, with `path.resolve` and
--   `path.dirname` on POSIX paths, and Platform scripts/platform-support.mjs; the rest is
--   scripts/check-device-evidence.mjs: Checks has its small tests, Secrets `rejectSecretKeys`,
--   TestCases `validateTests` and `validateTestEvidence`, HostModes `validateNativeHostModes`,
--   Artifacts the loop over the artifacts, Origin the commit, gate and platform, Device
--   `validateDeviceEvidence`, and Files `verifyDeviceEvidenceFiles`. A function that pushes to
--   the list of findings returns what it pushes, and the sets that it fills.
--
-- Bounds and fuel: every loop is structural recursion, on a list, a text or a finite stream, so
-- no fuel is needed, but for the scan of a path for symbolic links, whose fuel is the length of
-- the resolved path. Numbers that the code tests are JavaScript doubles: `natural`, `negative`,
-- `fraction`, `infinity` and `nan` keep apart what the tests can tell apart. The byte lengths and
-- counters that the code adds up are natural numbers; they stay below 2^53 since each is at most
-- a limit plus the length of one buffer.
--
-- Parameters: the Unicode table behind `\p{C}|\p{White_Space}` (a Boolean function), what `new
-- URL` makes of an address, the readings of `Date.now()`, the host callbacks and the delegate,
-- the browser's credential API and abort signal, the file system and the working directory,
-- SHA-256 and the decoding of UTF-8, what `new Date(text).toISOString()` returns or throws, and
-- the platform support policy, a file.
--
-- Not modelled: the default environment of the web package, which reads the globals of a browser,
-- and its constant notice, a reader that never ends, accessors with side effects on plain objects
-- other than throwing ones, exceptions thrown by an application callback, and the interleaving of
-- two requests between their awaits other than through the map of used evidence. Outside this
-- library are the Rust crates, the native and Flutter renderers, the Expo plugin, the release
-- scripts but for those above, and of those the command line.
pub mod Prelude
pub mod Js
pub mod Contracts
pub mod Evidence
pub mod ReactNative
pub mod ServerNode
pub mod Web
