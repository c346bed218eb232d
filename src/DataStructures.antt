-- ===== src/DataStructures.antt =====
-- roboserver/shared/data_structures: the containers that the packages of the server share.
pub mod Set
