-- ===== src/Lib.antt =====
-- Verification of pishoo, a server that answers for a DHTTP identity: it authorises requests by the
-- identity of the transport, serves installed Apps, forwards requests to local upstreams, installs
-- packages and keeps contacts.
--
-- A request passes the access middleware, which takes the visitor from the handshake and asks the
-- access service. Behind it stand the routes: the configuration and package management of the owner,
-- the frontends of Apps, and the proxy, which chooses a location of the configuration and exchanges
-- the request with the upstream. A worker delivers outbound contact requests from a table.
--
-- Files, and the code that they model:
--   Base, Base/*            lists, results and texts (a text is the list of its code points)
--   Failure                 src/error.rs: `Error` and `Error::status`
--   Routes, Routes/*        src/routes.rs: `reserved` and `proxy_pass` (`select` is its choice);
--                           src/routes/proxy.rs: `proxy_uri`
--   Proxy, Proxy/*          src/routes/proxy.rs: `clean_hop_headers`, `header_token` and `proxy`
--   Access, Access/*        src/routes/access.rs: `authorize`
--   Frontend, Frontend/*    src/sandbox.rs: `app_response`
--   Static, Static/*        src/routes.rs: `static_file`
--   Setup, Setup/*          src/setup.rs: `parse_proxies`, `read_config`, `check_proxy_mounts`,
--                           `config_database` (Requests, Transactions) and `config_request` (Owner)
--   Management, Management/* src/package.rs: `pkg_management_request`
--   Package/Names           src/package/format.rs: `release_version`, `valid_name`, `waz_path`;
--                           src/package/files.rs: `valid_id`
--   Package/Archive, ...    src/package/format.rs: `waz_read`
--   Package/Component, ...  src/package/manifest.rs: `validate_lib`, `validate_openapi`,
--                           `verify_component_signature`
--   Values                  `serde_json::Value`, as an interface
--   Package/Metadata, ...   src/package/format.rs: `package_metadata`
--   Package/Declarations, ... src/package/format.rs: `validate_declarations`
--   Package/Contents, ...   src/package/format.rs: `verify_signature`, `waz_payload` and the sections that
--                           `package_openapi` and `validate_contents` read
--   Package/Reader, ...     src/package/format.rs: `read_package_at`, `validate_contents`
--   Package/Signing, ...    src/package/signing.rs: `verify_chain_with_root` (Chain), `verify_receipt`
--                           (Receipt), `check_revocations` and `validate_crl` (Revocation)
--   Package/Store, ...      src/package/store.rs: `store_get` (Transfer), `download_release` and
--                           `verify_release` (Release), `install_store_package` (Collect, Install) and
--                           `order_packages` (Order)
--   Contact/Protocol, ...   src/contact.rs: `name`, `page`, `request_expiry`;
--                           src/contact/delivery.rs: `pending_review`, `review_progress`
--   Contact/Queue, ...      src/contact.rs, src/contact/storage.rs, src/contact/delivery.rs: the table
--                           `outbound_contact_request` and the transactions on it
--
-- State is passed on: a database is a record of its rows, a transaction a function that returns the
-- rows it leaves. Errors are values of `Result`; payloads of errors of other crates and values that
-- `format!` puts into a message are left out. Times and numbers are natural numbers, with the
-- bound of the source where it tests one (u64 in `release_version`, 64 MiB in `waz_read`). Loops
-- are structural recursion on lists, but for three that run on fuel: `only_suffixes` on the number of
-- bytes of its text, which is more than the suffixes that it can take off; `order_packages` on the
-- number of packages, of which each round takes one away; and the loop of `install_store_package` on
-- 10001 rounds, which are enough for 100 packages with 100 dependencies each and the first one.
--
-- Code of other crates is a parameter: the zip directory, the access service, certificates, the
-- parsers of URIs, addresses, JSON and escapes, the directory of an App, the connection to an
-- upstream. The header map of the crate `http` is an interface (Proxy/Headers) with laws that its
-- documentation states. X.509, hashes and signatures are the interface `Pki` (Package/Signing), JSON is
-- `Values`, and `Crates` (Package/Reader) holds these with the other parsers that a package is read by.
-- The answers of the store are a function of the path, and the file of a revocation list is a state.
--
-- Not modelled: the guest runtime on wasmtime, TLS and OCSP, mDNS, directories, the archive of a
-- configuration database of an earlier version, failures of SQLite inside a transaction, migrations of
-- databases, the commit of an installation, and the delivery of a contact request
-- between the two transactions of its job.
pub mod Base
pub mod Failure
pub mod Values
pub mod Proxy
pub mod Routes
pub mod Access
pub mod Frontend
pub mod Static
pub mod Setup
pub mod Contact
pub mod Management
pub mod Package
