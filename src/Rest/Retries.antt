-- ===== src/Rest/Retries.antt =====
-- The retries of src/ServiceConnections/RestServiceConnection.cpp.
