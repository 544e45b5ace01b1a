-- ===== src/Telegram.antt =====
-- backend/telegram_dispatcher.py. Dispatcher holds the class TelegramDispatcher; the other modules
-- prove what it does.
pub mod Clients
pub mod Dispatcher
pub mod Sending
pub mod Budget
pub mod Formatting
pub mod Counting
