-- ===== src/Proxy.antt =====
-- soml/proxy_server: the queue of the messages that wait to be sent on.
pub mod Queue
