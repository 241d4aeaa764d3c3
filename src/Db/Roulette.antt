-- ===== src/Db/Roulette.antt =====
-- src/db/dbquery.h and dbquery.cpp: class DBQuery, the requests to the roulette service. libcurl,
-- jsoncpp and the service are a parameter; what is sent is recorded in the state, with the count of
-- curl handles that are open.
pub mod Backend
pub mod Replies
pub mod Client
pub mod Requests
