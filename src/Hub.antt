-- ===== src/Hub.antt =====
-- internal/hub and cmd/hub, the fleet hub. Store is the storage that the server needs and the filter of a
-- listing, Query and Database the storage in a database (store.go); Server and Api are the HTTP handlers
-- and routes (server.go), Dispatch their cases, Access who reaches them, Changes what they change, Log
-- what a sequence of requests leaves; Ingest, Delivery, Fleet, Arrival and Listing have what becomes of a
-- notification, Limit the limit of a listing; Main is the process (cmd/hub/main.go). Sample has the
-- notification of the tests.
pub mod Store
pub mod Server
pub mod Api
pub mod Ingest
pub mod Delivery
pub mod Fleet
pub mod Arrival
pub mod Listing
pub mod Dispatch
pub mod Log
pub mod Access
pub mod Changes
pub mod Database
pub mod Main
pub mod Limit
pub mod Query
pub mod Sample
mod Tests
