-- ===== src/Subscription/Sound.antt =====
-- What holds of the servers of a subscription (src-tauri/src/subscription.rs).
