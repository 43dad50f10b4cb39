-- ===== src/Lib.antt =====
-- Verification of wbauth, the Python package under python/src/wbauth: agents that sign their HTTP
-- requests (Web Bot Auth over RFC 9421), look at a site's published policy before they call it,
-- and servers that check such signatures.
--
-- The parts and how they meet. An inspection fetches four files of an origin (robots.txt, ai.txt,
-- llms.txt, the signing directory), keeps what it parsed in a cache, and computes a verdict with
-- its reasons; a guard asks for the verdict before each request and keeps to the crawl delay; the
-- signer adds three headers to a request; the verifier parses them, rebuilds what was signed, finds
-- the key in a directory that it fetches or remembers, and refuses a nonce that its store has seen;
-- a middleware puts the verifier in front of an application. An identity holds the keys, in files
-- that are created once and rotated.
--
--   Policy/Inspector/Fetch.antt    `_fetch_one` of python/src/wbauth/policy/inspector.py: the loop
--                                  over redirects, the byte cap, the status checks
--   Policy/Inspector/Private.antt  `_is_private_host`, `_resolves_private`, `_ip_is_private`
--   Policy/Inspector/Endpoints.antt  `_origin_host`, `_endpoints`, `_parse_text`
--   Policy/Inspector/Round.antt    `_inspect_fetch` and `_fetch_missing`: a round of fetches, what
--                                  each answer does to the values, the errors and the cache
--   Policy/Inspector/Run.antt      `inspect`: the cache, the early stop, the policy
--   Policy/Inspector/Build.antt    `_build_policy` and `_robots_forbids`
--   Policy/Verdict.antt            `compute_verdict` of policy/verdict.py; Verdict/Paths.antt has
--                                  `restriction_applies`, Verdict/Phrases.antt the llms.txt phrase
--   Policy/Types.antt, Errors.antt the result types of policy/policy.py, and the exceptions
--   Policy/Cache/*.antt            `PolicyCache` of policy/cache.py, `normalize_host`,
--                                  `_parse_cache_control`
--   Policy/Cache/Saved.antt        `dump` and `restore`: the items of a saved cache
--   Policy/Parsers/*.antt          policy/parsers/: robots.txt as far as the package reads it itself,
--                                  ai.txt, llms.txt and the signing directory
--   Policy/Guard.antt              `PolicyGuard` of policy/guard.py; Guard/Pacing.antt has its
--                                  tasks as steps, Guard/Enforcing.antt the transport
--   Signer.antt                    `sign` and `_sign_fast` of signer.py, and
--                                  `validate_signature_agent_url` of identity.py
--   Urls.antt                      `normalize_authority` of signer.py
--   StructuredFields.antt          `_sf_string` of signer.py and `_unquote` of verifier.py
--   Verifier/Nonces.antt           `NonceStore` of verifier.py
--   Verifier/Parse.antt            `parse_signature_input`, `parse_signature`, `_parse_params`
--   Verifier/Checks.antt, Verify.antt  `Verifier.verify`, `_lower` and `_component_value`
--   Verifier/Keys.antt             `Verifier._resolve` and `_thumbprint`
--   Verifier/Directory.antt        `_directory_url` and `JwksCache`
--   Verifier/Middleware.antt       `WebBotAuthMiddleware`: the call of an application
--   Protocol/*.antt                signer.py and verifier.py together: Protocol/RoundTrip.antt has the
--                                  request from `sign` to `verify`, the others its steps
--   DirectoryServer.antt           _http_server/jwks_server.py: the answers of the directory server
--   Identity/Keys.antt             `KeyPair` and `_compute_kid` of identity.py
--   Identity/Files.antt            `_load_keypair` and `_generate_keypair_to`: key files
--   Identity/Agent.antt            `Identity`: its constructors, the key ring, the JWKS
--   Cli.antt                       cli.py: `_site_unreachable` and the exit code of `_dispatch_inspect`
--   Adapters.antt                  adapters/_utils.py: `host_matches`, `make_sign_decider`,
--                                  `ensure_content_digest`, `strip_signature_headers`
--   Adapters/Sending.antt          adapters/httpx_auth.py: `_sign_request`, `_prepare`
--   Prelude, Text, Dict, Json, Matching: shared types, lists, text, dictionaries, regex steps
--   Tests/                         concrete runs
--
-- Text is a list of codes, a dictionary an association list with distinct keys in the order of
-- insertion, and an exception a value of its class. Times in the cache are milliseconds, those of
-- the signer and the verifier microseconds. Case folding and the classes of letters and digits are
-- those of ASCII, which is what hosts, header names and directives are made of.
--
-- Parameters. `Addresses` stands for ipaddress, inet_aton and getaddrinfo, which may answer
-- otherwise at each call; `Network` for httpx, whose answers may differ at each hop; `StoreLaws`
-- for the stores of cachetools, with the laws of a map that may drop entries; `UrlSplit` for
-- urllib.parse.urlsplit; base64 and the Ed25519 key are functions of the signer. The outcome of
-- `inspect` is an argument of the guard. `Around` holds what a round of fetches meets: tasks in
-- flight, fetches that run out of time, the clock; `Parsers` the parsers of the four files, which
-- take what Protego and json.loads give.
-- `Services` and `Source` hold what the verifier calls: httpx.URL, base64, SHA-256, Ed25519,
-- json.dumps, the resolver, and the answers of the JWKS cache.
-- `Surroundings` holds what that cache meets at one call: the answer, json.loads, the clock.
-- `Crypto` stands for the keys of the package cryptography, their PEM and hashes, with the law that
-- a key is read back from its PEM; `Env` for what a call meets in the file system, among it what
-- other processes do between a test and the creation of a file.
--
-- Bounds. The loop of `_fetch_one` runs over six hops and is recursion on the number that is left;
-- the digits of a number n are written in n + 1 steps, which Text/Decimal.antt shows to be enough;
-- all other loops are recursion on their list or text.
--
-- Not modelled: the evaluation of robots.txt rules, which is that of Protego, the table of
-- tasks in flight between its callers, how the cache is written to its file, the adapters for
-- requests and Playwright, the sockets and key files of the directory server, the command line but
-- for the exit code of `inspect`, and the TypeScript packages. Of an identity, the redacted repr,
-- external signers and the published test key; of the middleware, the JSON of its 401 answer; of a
-- verified agent, its jwk; of a redirect, a Location that cannot be joined to a URL; of `sign`, an
-- `expires_after_seconds` that is no number or has parts of a microsecond.
pub mod Identity
pub mod Adapters
pub mod Prelude
pub mod Text
pub mod Matching
pub mod Dict
pub mod Json
pub mod Policy
pub mod Urls
pub mod StructuredFields
pub mod Signer
pub mod Verifier
pub mod Protocol
pub mod DirectoryServer
pub mod Cli
pub mod Tests
