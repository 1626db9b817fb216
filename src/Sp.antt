-- ===== src/Sp.antt =====
-- src/sp: the scalability protocols, which carry messages between the sockets of an endpoint.
pub mod RoundRobin
pub mod Ulhash
pub mod Conhash
pub mod Reqrep
pub mod Fanout
pub mod Endpoint
