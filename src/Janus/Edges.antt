-- ===== src/Janus/Edges.antt =====
-- When an Edge node of src/JanusFtl.cpp subscribes to a channel, and when it unsubscribes.
