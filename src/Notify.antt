-- ===== src/Notify.antt =====
-- internal/notify: outbound notifications. notify.go builds the payload and posts it, router.go
-- picks the webhook of a namespace.
pub mod Router
pub mod Payload
pub mod Send
