-- ===== src/Feed/Handshake/Running/Synced.antt =====
-- What a subscriber gets for its sync request from a running publisher of pkg/feed/publisher.go.
