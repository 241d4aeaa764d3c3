-- ===== src/Tests.antt =====
-- Runs of the model at concrete packets, queries, entries and replies of the service.
mod Data
mod Packets
mod Chains
mod Queries
mod Endpoints
mod Entering
mod Travellers
mod Journeys
mod Segments
mod Conversations
mod Exits
mod Pools
mod Clients
mod Answers
mod Servers
mod Starts
