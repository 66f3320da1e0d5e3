-- ===== src/Mail.antt =====
-- src/modules/auth/mail/: the mail service, which queues, and the processor, which delivers.
pub mod Template
pub mod Service
pub mod Processor
mod Tests
