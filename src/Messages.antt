-- ===== src/Messages.antt =====
-- internal/store/messages.go and the envelope of internal/model/envelope.go: storing a message, and what
-- a RESULT does to its task. Times of an envelope are nanoseconds since the zero time; the table
-- holds whole seconds. `result_claim` stands for `json.Unmarshal` into a `ResultPayload`: the
-- payload's claim_id, "" if it has none, or `none` if the payload does not decode.
mod Insert
pub mod Inbox
pub mod Aside
pub mod Dedup
pub mod Payloads
unfoldable pub use Insert.*
