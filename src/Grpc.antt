-- ===== src/Grpc.antt =====
-- gRPC: the pool of connections and the server of internal/grpc/, and the server and the clients of
-- app/module/, in Component and Clients. The gRPC library is a parameter.
pub mod Pool
pub mod Server
pub mod Clients
pub mod Component
