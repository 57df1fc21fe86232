-- ===== src/Contact.antt =====
-- src/contact.rs and src/contact: outbound contact requests.
pub mod Queue
pub mod Protocol
